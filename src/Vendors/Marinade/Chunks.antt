-- ===== src/Vendors/Marinade/Chunks.antt =====
-- vendors/marinade.rs: reading the records of a list one by one.
use native.Mathlib.Nat.{mul-le-mul_right}
use mathlib.Core.List.{append_assoc}
use mathlib.Core.Path.{subst}
use stake_pool_tools.Base.{
  ℕ, suc, ◌+◌, ◌*◌, ◌-◌, ◌<◌, ◌≤◌, ◌≡◌, refl, ap, List, [], ◌∷◌, ◌++◌, some, true, false, ok,
  unwrap, traverse, arith, leb, mul_u32, u32_mod, slice, range, length, length-append, drop-append,
  take-append, All, le→leb,
}
use stake_pool_tools.Solana.{Borsh}
use stake_pool_tools.Vendors.Marinade.Records.{AccountList, get}

module _ {ℓ} {A : Type ℓ} where
  slice-middle :
      (xs ys zs : List A) {start size : ℕ}
      → length xs ≡ start
      → length ys ≡ size
      → slice start (start + size) (xs ++ (ys ++ zs)) ≡ some ys
  slice-middle xs ys zs {start} {size} e e' =
      let a : leb start (start + size) ≡ true = le→leb _ _ (omega arith) in
      let b : leb (start + size) (length (xs ++ (ys ++ zs))) ≡ true =
        le→leb _ _ (omega (arith, length-append xs (ys ++ zs), length-append ys zs)) in
      let c : start + size - start ≡ size = omega arith in
      rw (a, b, c) (rw (← e, ← e', drop-append xs (ys ++ zs), take-append ys zs))

-- What a list's account holds behind its first eight bytes.
abbrev pub encoded : {I : Type 0} → (I → List ℕ) → List I → List ℕ
encoded encode [] = []
encoded encode (r ∷ rs) = encode r ++ encoded encode rs

module _ {P I : Type 0} ⦃borsh : Borsh I⦄ (list : AccountList P) (encode : I → List ℕ) where
  -- A record is written in the list's item size, and is read back from that.
  abbrev pub Encodes : I → Type 0
  Encodes r = (length (encode r) ≡ list.item_size) × (borsh.deserialize (encode r) ≡ some r)

  get-append :
      (done : List ℕ) (r : I) (rest : List ℕ) (index : ℕ)
      → length done ≡ 8 + index * list.item_size
      → index < list.count
      → list.count * list.item_size < u32_mod
      → Encodes r
      → get list (done ++ (encode r ++ rest)) index ≡ ok r
  unfolding get
  get-append done r rest index e p word (size, decodes) =
      let inside : leb list.count index ≡ false = ground arith in
      let below : index ≤ list.count = omega arith in
      let product : mul_u32 index list.item_size ≡ index * list.item_size =
        omega (arith, mul-le-mul_right list.item_size below) in
      rw (inside, product, slice-middle done (encode r) rest e size) (ap unwrap decodes)

  -- `done` is what stands before the records that are left.
  traverse-get :
      (done : List ℕ) (records : List I) (start : ℕ) (tail : List ℕ)
      → length done ≡ 8 + start * list.item_size
      → start + length records ≤ list.count
      → list.count * list.item_size < u32_mod
      → All Encodes records
      → traverse
          (get list (done ++ (encoded encode records ++ tail)))
          (range start (length records))
        ≡ ok records
  traverse-get done [] start tail e p word h = refl
  traverse-get done (r ∷ records) start tail e p word (h, hs) =
      let next : length (done ++ encode r) ≡ 8 + suc start * list.item_size =
        omega (arith, length-append done (encode r), h.0) in
      let regroup : done ++ (encoded encode (r ∷ records) ++ tail)
          ≡ (done ++ encode r) ++ (encoded encode records ++ tail) =
        simp append_assoc in
      let regroup' : done ++ (encoded encode (r ∷ records) ++ tail)
          ≡ done ++ (encode r ++ (encoded encode records ++ tail)) =
        simp append_assoc in
      let this : get list (done ++ (encoded encode (r ∷ records) ++ tail)) start ≡ ok r =
        rw regroup'
          (get-append done r (encoded encode records ++ tail) start e (omega arith) word h) in
      let rest : traverse (get list (done ++ (encoded encode (r ∷ records) ++ tail)))
            (range (suc start) (length records))
          ≡ ok records =
        rw regroup
          (traverse-get (done ++ encode r) records (suc start) tail next (omega arith) word hs) in
      rw (this, rest)

  -- Reading the entries 0 to `count` of a list gives the records that its account was written
  -- with, behind eight bytes and before any others, where there are `count` records, each is
  -- written in the list's item size and is read back from what is written, and the sizes together
  -- are a 32-bit number.
  pub get-encoded :
      (discriminator : List ℕ) (records : List I) (tail : List ℕ)
      → length discriminator ≡ 8
      → length records ≡ list.count
      → list.count * list.item_size < u32_mod
      → All Encodes records
      → traverse (get list (discriminator ++ (encoded encode records ++ tail))) (range 0 list.count)
        ≡ ok records
  get-encoded discriminator records tail e count word h =
      subst
        (λ n.
          traverse (get list (discriminator ++ (encoded encode records ++ tail))) (range 0 n)
          ≡ ok records)
        count (traverse-get discriminator records 0 tail (omega arith) (omega arith) word h)
