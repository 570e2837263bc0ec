-- ===== src/InternalKey/Shorten.antt =====
-- `InternalKeyComparator` is again a comparator, its shortened keys included.
use Prim.Native.Nat.Ordering.{lt, eq, gt}
use d_lsm.Common.{ℕ, ◌≡◌, arith, ◌∙◌, sym, ◌≢◌, inl, inr, Bool-cases}
use d_lsm.Common.{length, ltb, ◌&&◌}
use d_lsm.Coding.{Bytes, put_fixed64}
use d_lsm.Comparator.{is_lt}
use d_lsm.Comparator.Interface.{Comparator, IsComparator, IsShortening, KeepsEqual}
use d_lsm.InternalKey.{
  internal_compare, internal_separator, internal_successor, internal_comparator,
}
use d_lsm.InternalKey.{
  tag, extract_user_key, pack_sequence_and_type, max_sequence_number, value_type_for_seek,
}
use d_lsm.InternalKey.Codec.{extract_user_key_fixed64}

module _ (user : Comparator) (laws : IsComparator user) where
  internal_compare-eq :
      (a b : Bytes)
      → internal_compare user a b ≡ eq
      → (user.compare (extract_user_key a) (extract_user_key b) ≡ eq) × (tag a ≡ tag b)
  unfolding internal_compare
  internal_compare-eq a b h = ground arith

  internal_compare_refl : (a : Bytes) → internal_compare user a a ≡ eq
  unfolding internal_compare
  internal_compare_refl a = ground (arith, laws.compare_refl (extract_user_key a))

  internal_compare-eq_left :
      (a b d : Bytes)
      → internal_compare user a b ≡ eq
      → internal_compare user a d ≡ internal_compare user b d
  unfolding internal_compare
  internal_compare-eq_left a b d h =
      let (same, tags) = internal_compare-eq a b h in
      cc (
        laws.compare_eq_left (extract_user_key a) (extract_user_key b) (extract_user_key d) same,
        tags,
      )

  internal_compare-eq_right :
      (a b d : Bytes)
      → internal_compare user a b ≡ eq
      → internal_compare user d a ≡ internal_compare user d b
  unfolding internal_compare
  internal_compare-eq_right a b d h =
      let (same, tags) = internal_compare-eq a b h in
      cc (
        laws.compare_eq_right (extract_user_key a) (extract_user_key b) (extract_user_key d) same,
        tags,
      )

  user_eq_sym : (x y : Bytes) → user.compare x y ≡ eq → user.compare y x ≡ eq
  user_eq_sym x y h = sym (laws.compare_eq_left x y x h) ∙ laws.compare_refl x

  internal_compare_swap :
      (a b : Bytes) → internal_compare user a b ≡ lt → internal_compare user b a ≡ gt
  unfolding internal_compare
  internal_compare_swap a b h =
      let x = extract_user_key a in
      let y = extract_user_key b in ground (arith, laws.compare_swap x y, user_eq_sym x y)

  internal_compare_swap_gt :
      (a b : Bytes) → internal_compare user a b ≡ gt → internal_compare user b a ≡ lt
  unfolding internal_compare
  internal_compare_swap_gt a b h =
      let x = extract_user_key a in
      let y = extract_user_key b in ground (arith, laws.compare_swap_gt x y, user_eq_sym x y)

  internal_compare_trans :
      (a b d : Bytes)
      → internal_compare user a b ≡ lt
      → internal_compare user b d ≡ lt
      → internal_compare user a d ≡ lt
  unfolding internal_compare
  internal_compare_trans a b d h k =
      let x = extract_user_key a in
      let y = extract_user_key b in
      let z = extract_user_key d in
      ground
        (arith, laws.compare_trans x y z, laws.compare_eq_left x y z, laws.compare_eq_right y z x)

  -- A key whose user part is shorter and greater, with the greatest tag, is greater.
  grown_key :
      (key tmp : Bytes) (v : ℕ)
      → user.compare (extract_user_key key) tmp ≡ lt
      → internal_compare user key (put_fixed64 tmp v) ≡ lt
  unfolding internal_compare put_fixed64
  grown_key key tmp v h = ground (arith, extract_user_key_fixed64 tmp v)

  lower_key :
      (limit tmp : Bytes) (v : ℕ)
      → user.compare tmp (extract_user_key limit) ≡ lt
      → internal_compare user (put_fixed64 tmp v) limit ≡ lt
  unfolding internal_compare put_fixed64
  lower_key limit tmp v h = ground (arith, extract_user_key_fixed64 tmp v)

  -- Over a user comparator that orders keys, the comparator of internal keys orders them.
  pub internal_comparator-IsComparator : IsComparator (internal_comparator user)
  internal_comparator-IsComparator = record {
    compare_refl = internal_compare_refl;
    compare_eq_left = internal_compare-eq_left;
    compare_eq_right = internal_compare-eq_right;
    compare_swap = internal_compare_swap;
    compare_swap_gt = internal_compare_swap_gt;
    compare_trans = internal_compare_trans;
  }

  -- A key that is not after a smaller one of the same user.
  internal_compare-user :
      (start limit : Bytes)
      → internal_compare user start limit ≡ lt
      → user.compare (extract_user_key start) (extract_user_key limit) ≢ gt
  unfolding internal_compare
  internal_compare-user start limit h = ground arith

  internal_separator_lem :
      (start limit : Bytes)
      → IsShortening user
      → KeepsEqual user
      → internal_compare user start limit ≡ lt
      → (internal_compare user start (internal_separator user start limit) ≢ gt)
        × (internal_compare user (internal_separator user start limit) limit ≡ lt)
  unfolding internal_separator
  internal_separator_lem start limit short keeps h =
      let us = extract_user_key start in
      let ul = extract_user_key limit in
      let tmp = user.find_shortest_separator us ul in
      let last = pack_sequence_and_type max_sequence_number value_type_for_seek in
      elim (Bool-cases (ltb (length tmp) (length us) && is_lt (user.compare us tmp))) [
        | inl shorter ↦
            let above : user.compare us tmp ≡ lt = ground arith in
            let below : user.compare tmp ul ≡ lt =
              ground
                (arith, internal_compare-user start limit h, keeps us ul, short.separator us ul) in
            rw shorter
              (ground (arith, grown_key start tmp last above), lower_key limit tmp last below)
        | inr same ↦ rw same (ground (arith, internal_compare_refl start), h)
      ]

  internal_successor_lem :
      (key : Bytes) → internal_compare user key (internal_successor user key) ≢ gt
  unfolding internal_successor
  internal_successor_lem key =
      let uk = extract_user_key key in
      let tmp = user.find_short_successor uk in
      let last = pack_sequence_and_type max_sequence_number value_type_for_seek in
      elim (Bool-cases (ltb (length tmp) (length uk) && is_lt (user.compare uk tmp))) [
        | inl shorter ↦ rw shorter (ground (arith, grown_key key tmp last (ground arith)))
        | inr same ↦ rw same (ground (arith, internal_compare_refl key))
      ]

  internal_separator-eq :
      (start limit : Bytes)
      → KeepsEqual user
      → internal_compare user start limit ≡ eq
      → internal_separator user start limit ≡ start
  unfolding internal_separator
  internal_separator-eq start limit keeps h =
      let (same, tags) = internal_compare-eq start limit h in
      ground (arith, keeps (extract_user_key start) (extract_user_key limit) same)

  -- Over a user comparator that meets the contract of comparator.h, the comparator of internal keys
  -- meets it too: it orders keys; between a key and a greater one it finds a separator that is not less
  -- than the first and less than the second; and the successor of a key is not less than it. It is assumed
  -- that the user comparator does not enlarge a key towards an equal one, which the header does not say,
  -- since two versions of a user key are shortened with equal user keys; nor does the result.
  pub internal_comparator_lem :
      IsShortening user
      → KeepsEqual user
      → IsComparator (internal_comparator user)
        × IsShortening (internal_comparator user)
        × KeepsEqual (internal_comparator user)
  internal_comparator_lem short keeps = (
    internal_comparator-IsComparator,
    record {
      separator = λ start limit h. internal_separator_lem start limit short keeps h;
      successor = internal_successor_lem;
    },
    λ start limit h.
        rw (internal_separator-eq start limit keeps h)
          (ground (arith, internal_compare_refl start)),
  )
