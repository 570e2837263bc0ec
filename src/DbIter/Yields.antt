-- ===== src/DbIter/Yields.antt =====
-- The entries that a forward scan yields are those that lookups find.
use Prim.Native.Nat.Ordering.{lt, gt}
use d_lsm.Common.{ℕ, ◌≤◌, ◌≡◌, ◌≢◌, refl, ap, sym, ◌∙◌, arith, Bool, true, false}
use d_lsm.Common.{
  inl, inr, Option, some, none, Bool-cases, Option-cases, map, length, not, ◌&&◌, ◌==◌, leb,
}
use d_lsm.Common.{List, [], ◌∷◌, if◌then◌else◌}
use d_lsm.Coding.{Bytes}
use d_lsm.Comparator.{is_gt}
use d_lsm.Comparator.Interface.{Comparator, IsComparator, compare_trans_le}
use d_lsm.InternalKey.{ParsedInternalKey, parse_internal_key, extract_user_key}
use d_lsm.WriteBatch.{type_deletion}
use d_lsm.Compaction.{KeyValue, is_eq}
use d_lsm.Compaction.Visible.{lookup, sees}
use d_lsm.Compaction.Level.{Ascending}
use d_lsm.Iterators.{whole}
use d_lsm.DbIter.{DbIter, hidden, choose_next, db_seek_to_first, yield, go_on}
use mathlib.Core.Path.{subst}
use d_lsm.DbIter.Rising.{FromKey, parse_user_key, Ascending-FromKey, IsRising, yielded-RisesFrom}
use d_lsm.DbIter.Scan.{scan, yielded, user_entry, scan-seek_to_first}

-- The value of a key, in a list of keys and values.
abbrev pub find_value : Comparator → Bytes → List (Bytes × Bytes) → Option Bytes
find_value user u [] = none
find_value user u ((key, value) ∷ entries) =
    let rest = find_value user u entries in if is_eq (user.compare key u) then some value else rest

-- The value of an entry that is not a deletion.
abbrev value_with : Option ParsedInternalKey → Bytes → Option Bytes
value_with none value = none
value_with (some ikey) value = if ikey.type == type_deletion then none else some value

abbrev pub value_of : Option KeyValue → Option Bytes
value_of none = none
value_of (some e) = value_with (parse_internal_key e.0) e.1

module _ (user : Comparator) (laws : IsComparator user) (sequence : ℕ) where
  lookup_above :
      (u w : Bytes) (entries : List KeyValue)
      → user.compare u w ≡ lt
      → FromKey user w entries
      → lookup user u sequence entries ≡ none
  lookup_above u w [] h from = refl
  lookup_above u w (d ∷ entries) h (fd, from) = elim (Option-cases (parse_internal_key d.0)) [
    | inl bad ↦ rw bad (lookup_above u w entries h from)
    | inr (ikey, good) ↦
        let below : user.compare u (extract_user_key d.0) ≡ lt =
          compare_trans_le user laws u w (extract_user_key d.0) h fd in
        let apart : is_eq (user.compare ikey.user_key u) ≡ false =
          ground
            (arith, parse_user_key d.0 ikey good, laws.compare_swap u (extract_user_key d.0)) in
        let unseen : sees user u sequence (some ikey) ≡ false = rw apart refl in
        rw (good, unseen) (lookup_above u w entries h from)
  ]

  compare_gt_le :
      (u w skip : Bytes)
      → user.compare u w ≡ gt
      → user.compare skip w ≢ gt
      → user.compare u skip ≡ gt
  compare_gt_le u w skip above low = ground (
    arith,
    laws.compare_swap_gt u w,
    laws.compare_trans skip w u,
    laws.compare_eq_left skip w u,
    laws.compare_swap skip u,
  )

  -- The entries behind one with another user key.
  hidden_further :
      (u w skip : Bytes) (skipping : Bool) (entries : List KeyValue)
      → is_eq (user.compare w u) ≡ false
      → FromKey user w entries
      → (skipping ≡ true → user.compare skip w ≢ gt)
      → (if hidden user sequence true w u then none else value_of (lookup user u sequence entries))
        ≡ (if hidden user sequence skipping skip u
            then none
            else value_of (lookup user u sequence entries))
  hidden_further u w skip skipping entries apart from low =
      elim (Bool-cases (is_gt (user.compare u w))) [
        | inl above ↦
            let shown : hidden user sequence skipping skip u ≡ false = elim (Bool-cases skipping) [
              | inl on ↦ let up = compare_gt_le u w skip (ground arith) (low on) in rw (on, up) refl
              | inr off ↦ rw off refl
            ] in
            rw (above, shown) refl
        | inr not_above ↦
            let below : user.compare u w ≡ lt =
              ground
                (arith, laws.compare_swap w u, laws.compare_eq_left u w u, laws.compare_refl u) in
            rw (lookup_above u w entries below from, not_above)
              (elim (Bool-cases (hidden user sequence skipping skip u)) [
                | inl h ↦ rw h refl
                | inr s ↦ rw s refl
              ])
      ]

  -- What a scan that skips keys up to `skip` gives for a key.
  abbrev found_value : Bytes → Bool → Bytes → List KeyValue → Option Bytes
  found_value u skipping skip entries =
      if hidden user sequence skipping skip u
      then none
      else value_of (lookup user u sequence entries)

  abbrev Yields : Bytes → Bool → Bytes → List KeyValue → Type 0
  Yields u skipping skip entries =
      find_value user u
        (map (user_entry user sequence) (yielded user sequence skipping skip entries))
      ≡ found_value u skipping skip entries

  Yields-step :
      (u : Bytes) (skipping : Bool) (skip key value : Bytes) (ahead : List KeyValue)
      (ikey : ParsedInternalKey)
      → parse_internal_key key ≡ some ikey
      → FromKey user ikey.user_key ahead
      → (skipping ≡ true → user.compare skip ikey.user_key ≢ gt)
      → Yields u skipping skip ahead
      → Yields u true ikey.user_key ahead
      → find_value user u (
          map
            (user_entry user sequence)
            (elim (choose_next user sequence skipping skip (some ikey)) [
              | yield ↦ (key, value) ∷ yielded user sequence true (extract_user_key key) ahead
              | go_on skipping' skip' ↦ yielded user sequence skipping' skip' ahead
            ]))
        ≡ (if hidden user sequence skipping skip u
            then none
            else value_of (
                if sees user u sequence (some ikey)
                then some (key, value)
                else lookup user u sequence ahead))
  unfolding choose_next
  Yields-step u skipping skip key value ahead ikey parsed from low same next =
      let name : extract_user_key key ≡ ikey.user_key = sym (parse_user_key key ikey parsed) in
      elim (Bool-cases (leb ikey.sequence sequence)) [
        | inr newer ↦ rw newer (elim (Bool-cases (is_eq (user.compare ikey.user_key u))) [
          | inl equal ↦ rw equal same
          | inr apart ↦ rw apart same
        ])
        | inl old ↦ elim (Bool-cases (is_eq (user.compare ikey.user_key u))) [
          | inl equal ↦
              let alike : hidden user sequence skipping skip ikey.user_key
                  ≡ hidden user sequence skipping skip u =
                ap (λ o. skipping && not (is_gt o))
                  (laws.compare_eq_left ikey.user_key u skip (ground arith)) in
              elim (Bool-cases (ikey.type == type_deletion)) [
                | inl deletion ↦
                    let gone : hidden user sequence true ikey.user_key u ≡ true = ground (
                      arith,
                      laws.compare_eq_left ikey.user_key u ikey.user_key,
                      laws.compare_refl ikey.user_key,
                    ) in
                    rw (old, equal, deletion, next, gone, parsed, deletion)
                      (elim (Bool-cases (hidden user sequence skipping skip u)) [
                        | inl hide ↦ rw hide refl
                        | inr show ↦ rw show refl
                      ])
                | inr put ↦ elim (Bool-cases (hidden user sequence skipping skip u)) [
                  | inl hide ↦ rw (old, equal, put, alike, hide) (same ∙ rw hide refl)
                  | inr show ↦ rw (old, equal, put, alike, show, name, equal, parsed, put) refl
                ]
              ]
          | inr apart ↦
              let further = hidden_further u ikey.user_key skip skipping ahead apart from low in
              elim (Bool-cases (ikey.type == type_deletion)) [
                | inl deletion ↦ rw (old, apart, deletion) (next ∙ further)
                | inr put ↦ elim (Bool-cases (hidden user sequence skipping skip ikey.user_key)) [
                  | inl hide ↦ rw (old, apart, put, hide) same
                  | inr show ↦ rw (old, apart, put, show, name, apart) (next ∙ further)
                ]
              ]
        ]
      ]

  Yields-choice :
      (u : Bytes) (skipping : Bool) (skip key value : Bytes) (ahead : List KeyValue)
      (o : Option ParsedInternalKey)
      → parse_internal_key key ≡ o
      → FromKey user (extract_user_key key) ahead
      → (skipping ≡ true → user.compare skip (extract_user_key key) ≢ gt)
      → Yields u skipping skip ahead
      → Yields u true (extract_user_key key) ahead
      → find_value user u (
          map (user_entry user sequence) (elim (choose_next user sequence skipping skip o) [
            | yield ↦ (key, value) ∷ yielded user sequence true (extract_user_key key) ahead
            | go_on skipping' skip' ↦ yielded user sequence skipping' skip' ahead
          ]))
        ≡ (if hidden user sequence skipping skip u
            then none
            else value_of (
                if sees user u sequence o then some (key, value) else lookup user u sequence ahead))
  Yields-choice u skipping skip key value ahead none parsed from low same next =
      unfold choose_next in same
  Yields-choice u skipping skip key value ahead (some ikey) parsed from low same next =
      let name : extract_user_key key ≡ ikey.user_key = sym (parse_user_key key ikey parsed) in
      Yields-step u skipping skip key value ahead ikey parsed (rw name at from)
        (λ on. rw name at (low on)) same (rw name at next)

  -- What a scan that skips keys up to `skip` yields for a key is what a lookup of it finds.
  Yields-lookup :
      (u : Bytes) (skipping : Bool) (skip : Bytes) (entries : List KeyValue)
      → Ascending user entries
      → (skipping ≡ true → FromKey user skip entries)
      → Yields u skipping skip entries
  unfolding yielded
  Yields-lookup u skipping skip [] h from =
      elim (Bool-cases (hidden user sequence skipping skip u)) [
        | inl hide ↦ rw hide refl
        | inr show ↦ rw show refl
      ]
  Yields-lookup u skipping skip ((key, value) ∷ ahead) (above, h) from =
      let later = Ascending-FromKey user laws sequence key ahead above in
      Yields-choice u skipping skip key value ahead (parse_internal_key key) refl later
        (λ on. (from on).0) (Yields-lookup u skipping skip ahead h (λ on. (from on).1))
        (Yields-lookup u true (extract_user_key key) ahead h (λ on. later))

  -- A scan from the first entry yields each user key once, in ascending order, and gives a key the value
  -- of the first of its entries that is not newer than the iterator's sequence number; it leaves out the
  -- keys where that is a deletion or where there is none. The internal keys are assumed to ascend; as
  -- many steps as there are entries are enough, and more change nothing.
  pub scan-lookup :
      (u : Bytes) (d : DbIter) (fuel : ℕ)
      → Ascending user (whole d.iter)
      → length (whole d.iter) ≤ fuel
      → IsRising user (scan user sequence fuel (db_seek_to_first user sequence d))
        × (find_value user u (scan user sequence fuel (db_seek_to_first user sequence d))
            ≡ value_of (lookup user u sequence (whole d.iter)))
  scan-lookup u d fuel h enough =
      let scanned = scan-seek_to_first user sequence (whole d.iter) fuel d refl enough in
      (
        subst (IsRising user) (sym scanned)
            (yielded-RisesFrom user laws sequence false d.saved_key (whole d.iter) h
              (λ off. absurd (ground arith))).1,
        ap (find_value user u) scanned
            ∙ Yields-lookup u false d.saved_key (whole d.iter) h (λ off. absurd (ground arith)),
      )
