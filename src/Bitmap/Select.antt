-- ===== src/Bitmap/Select.antt =====
-- dht/bits/bitmap.go, Closest and RandInRangeP. What crypto/rand returns is the argument `r`.
use lbry_go.Prelude.{
  ℕ, zero, suc, ◌<◌, ◌≤◌, ◌≡◌, refl, ap, sym, ◌∙◌, Bool, true, false, ◌||◌, List, [], ◌∷◌, ◌++◌,
  arith, ltb, if◌then◌else◌, Run, ok, panic, out_of_fuel, ◌>>=◌, Bool-cases, inl, inr,
}
use lbry_go.Bitmap.{Bitmap, IsBitmap, Sign, more, cmp, closer, add}
use lbry_go.Bitmap.Value.{value}
use lbry_go.Bitmap.Order.{cmp-order}
use lbry_go.Bitmap.Sum.{add-value, value-lt_modulus}
use lbry_go.Bitmap.Hex.{sub}
use lbry_go.Bitmap.Difference.{sub-value}

-- `closest` holds no address but that of the loop variable, of which the loop has one (go.mod
-- names Go 1.15, and before 1.22 every iteration assigns the same variable).
pub data Pointer : Type 0 where
  nil loop_variable : Pointer

abbrev pub is_nil : Pointer → Bool
is_nil nil = true
is_nil loop_variable = false

-- The loop: `cell` is what the loop variable holds. An iteration stores `b` there first, so
-- `*closest` reads `b` too.
unfoldable pub closest_loop : Bitmap → List Bitmap → Bitmap → Pointer → Bitmap × Pointer
unfolding closer
closest_loop target [] cell pointer = (cell, pointer)
closest_loop target (b ∷ bitmaps) cell pointer =
    closest_loop target bitmaps b
      (if is_nil pointer || closer target b b then loop_variable else pointer)

unfoldable pub closest : Bitmap → List Bitmap → Run Bitmap
unfolding closest_loop
closest target [] = ok target
closest target (b ∷ bitmaps) =
    let (cell, pointer) = closest_loop target (b ∷ bitmaps) [] nil in
    if is_nil pointer then panic "nil pointer dereference" else ok cell

same_pointer : (b : Bool) → (if b then loop_variable else loop_variable) ≡ loop_variable
same_pointer b = ground arith

closest_loop_last :
    (target : Bitmap) (bitmaps : List Bitmap) (last cell : Bitmap)
    → closest_loop target (bitmaps ++ last ∷ []) cell loop_variable ≡ (last, loop_variable)
unfolding closest_loop
closest_loop_last target [] last cell = ap (λ p. (last, p)) (same_pointer (closer target last last))
closest_loop_last target (b ∷ bitmaps) last cell =
    ap (closest_loop target (bitmaps ++ last ∷ []) b) (same_pointer (closer target b b))
    ∙ closest_loop_last target bitmaps last b

-- Closest returns the last bitmap, whatever the distances are.
pub closest-last :
    (target : Bitmap) (bitmaps : List Bitmap) (last : Bitmap)
    → closest target (bitmaps ++ last ∷ []) ≡ ok last
unfolding closest closest_loop
closest-last target [] last = refl
closest-last target (b ∷ bitmaps) last = rw (closest_loop_last target bitmaps last b)

abbrev pub is_more : Sign → Bool
is_more more = true
is_more _ = false

-- The loop of RandInRangeP.
unfoldable pub reduce_loop : ℕ → Bitmap → Bitmap → Run Bitmap
reduce_loop zero r diff = out_of_fuel
reduce_loop (suc fuel) r diff =
    let rest = sub r diff >>= λ r'. reduce_loop fuel r' diff in
    if is_more (cmp r diff) then rest else ok r

unfoldable pub rand_in_range_p : ℕ → Bitmap → Bitmap → Bitmap → Run Bitmap
rand_in_range_p fuel low high r = do diff ← sub high low; r' ← reduce_loop fuel r diff; add r' low

pub is_more-cmp :
    (b c : Bitmap) → IsBitmap b → IsBitmap c → is_more (cmp b c) ≡ ltb (value c) (value b)
is_more-cmp b c h k = ap is_more (cmp-order b c h k) ∙ ground arith

reduce_loop_lem :
    (fuel : ℕ) (r diff : Bitmap)
    → IsBitmap r
    → IsBitmap diff
    → 0 < value diff
    → value r < fuel
    → (r' : Bitmap) × (reduce_loop fuel r diff ≡ ok r') × IsBitmap r' × (value r' ≤ value diff)
unfolding reduce_loop
reduce_loop_lem zero r diff h k pos lt = absurd (omega arith)
reduce_loop_lem (suc fuel) r diff h k pos lt = elim (Bool-cases (is_more (cmp r diff))) [
  | inr stop ↦
      let test : ltb (value diff) (value r) ≡ false = sym (is_more-cmp r diff h k) ∙ stop in
      (r, rw stop, h, ground arith)
  | inl go ↦
      let test : ltb (value diff) (value r) ≡ true = sym (is_more-cmp r diff h k) ∙ go in
      let (r', e, h', s) = (sub-value r diff h k).0 (ground arith) in
      let (x, f, g, le) = reduce_loop_lem fuel r' diff h' k pos (omega arith) in
      (x, rw (go, e) f, g, le)
]

-- RandInRangeP on a range of two bitmaps or more ends, with a bitmap in the range, for any random
-- input, on fuel above it.
pub rand_in_range_p_bounds :
    (fuel : ℕ) (low high r : Bitmap)
    → IsBitmap low
    → IsBitmap high
    → IsBitmap r
    → value low < value high
    → value r < fuel
    → (x : Bitmap) × (rand_in_range_p fuel low high r ≡ ok x)
      × IsBitmap x
      × (value low ≤ value x)
      × (value x ≤ value high)
unfolding rand_in_range_p
rand_in_range_p_bounds fuel low high r hl hh hr lt f =
    let (diff, e, hd, s) = (sub-value high low hh hl).0 (omega arith) in
    let (r', e', h', le) = reduce_loop_lem fuel r diff hr hd (omega arith) f in
    let (x, e'', hx, sum) = (add-value r' low h' hl).0 (omega (arith, value-lt_modulus high hh)) in
    (x, rw (e, e') e'', hx, omega arith, omega arith)

reduce_loop-out_of_fuel :
    (fuel : ℕ) (r r₀ diff : Bitmap)
    → IsBitmap r
    → IsBitmap diff
    → value diff ≡ 0
    → 0 < value r
    → value r ≡ value r₀
    → reduce_loop fuel r diff ≡ out_of_fuel
unfolding reduce_loop
reduce_loop-out_of_fuel zero r r₀ diff h k z pos e = refl
reduce_loop-out_of_fuel (suc fuel) r r₀ diff h k z pos e =
    let test : is_more (cmp r diff) ≡ true = is_more-cmp r diff h k ∙ ground arith in
    let (r', e', h', s) = (sub-value r diff h k).0 (omega arith) in
    rw (test, e') (reduce_loop-out_of_fuel fuel r' r diff h' k z (omega arith) (omega arith))

-- On a range of one bitmap RandInRangeP does not end, unless the random input is zero: no fuel is
-- enough.
pub rand_in_range_p-out_of_fuel :
    (fuel : ℕ) (low r : Bitmap)
    → IsBitmap low
    → IsBitmap r
    → 0 < value r
    → rand_in_range_p fuel low low r ≡ out_of_fuel
unfolding rand_in_range_p
rand_in_range_p-out_of_fuel fuel low r hl hr pos =
    let (diff, e, hd, s) = (sub-value low low hl hl).0 (omega arith) in
    rw (e, reduce_loop-out_of_fuel fuel r r diff hr hd (omega arith) pos refl)
