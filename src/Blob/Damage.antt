-- ===== src/Blob/Damage.antt =====
-- stream/blob.go, pkcs7Unpad: the last bytes that are no length of a padding.
use lbry_go.Prelude.{
  ℕ, ◌-◌, ◌%◌, ◌<◌, ◌≡◌, refl, ap, ◌∙◌, true, false, not, ◌||◌, [], ◌∷◌, ◌++◌, length,
  length-append, take, drop, get_or, ltb, ◌==◌, ok, panic, arith,
}
use lbry_go.Messages.{Bytes}
use lbry_go.Blob.{pkcs7_unpad, pad_loop}
use lbry_go.Blob.Padding.{get_or-append}

take-all : (l : Bytes) → take (length l) l ≡ l
take-all [] = refl
take-all (x ∷ l) = ap (◌∷◌ x) (take-all l)

drop-all : (l : Bytes) → drop (length l) l ≡ []
drop-all [] = refl
drop-all (x ∷ l) = drop-all l

last_lem : (l : Bytes) (x : ℕ) → get_or (l ++ x ∷ []) (length (l ++ x ∷ []) - 1) 0 ≡ x
last_lem l x =
    ap (λ i. get_or (l ++ x ∷ []) i 0) (omega (arith, length-append l (x ∷ [])))
    ∙ get_or-append l (x ∷ []) 0 0

-- For whole blocks with the last byte `x`: pkcs7Unpad returns all of them, as if they had no padding,
-- where `x` is 0, which is the length of no padding, and panics where `x` is more than their length.
pub pkcs7_unpad_last :
    (l : Bytes) (x b : ℕ)
    → 0 < b
    → length (l ++ x ∷ []) % b ≡ 0
    → (x ≡ 0 → pkcs7_unpad (l ++ x ∷ []) b ≡ ok (l ++ x ∷ []))
      × (length (l ++ x ∷ []) < x → pkcs7_unpad (l ++ x ∷ []) b ≡ panic "slice bounds out of range")
unfolding pkcs7_unpad pad_loop
pkcs7_unpad_last l x b h whole =
    let bytes = l ++ x ∷ [] in
    let some_block : ltb b 1 ≡ false = ground arith in
    let blocks : (not (length bytes % b == 0) || length bytes == 0) ≡ false =
      rw whole (ground (arith, length-append l (x ∷ []))) in
    let last = last_lem l x in
    (
      λ zero_byte.
          let none_last : get_or bytes (length bytes - 1) 0 ≡ 0 = last ∙ zero_byte in
          let enough : ltb (length bytes) 0 ≡ false = ground arith in
          let whole_length : length bytes - 0 ≡ length bytes = omega arith in
          rw some_block (
            rw blocks (
              rw none_last
                (rw enough (rw whole_length (rw (drop-all bytes) (ap ok (take-all bytes))))))),
      λ long.
          let short : ltb (length bytes) x ≡ true = ground arith in
          rw some_block (rw blocks (rw last (rw short refl))),
    )
