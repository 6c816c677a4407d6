-- ===== src/Blob/Padding.antt =====
-- stream/blob.go: padding and encryption, and their inverses.
use lbry_go.Prelude.{
  ℕ, none, zero, suc, ◌+◌, ◌-◌, ◌%◌, ◌≤◌, ◌<◌, ◌≡◌, ◌⊎◌, refl, ap, sym, ◌∙◌, true, false, not, ◌||◌,
  [], ◌∷◌, ◌++◌, length, length-append, length-replicate, take, take-middle, drop, drop-append,
  get_or, replicate, All, Returns, ltb, ◌==◌, ok, arith,
}
use mathlib.Core.Path.{subst}
use lbry_go.Bitmap.{IsByte}
use lbry_go.Messages.{Bytes}
use lbry_go.Blob.{
  Library, block_size, max_blob_size, valid_for_send, pkcs7_pad, pkcs7_unpad, pad_loop,
  crypt_blocks, new_blob, plaintext,
}

get_or-replicate : (n x d : ℕ) → get_or (replicate (suc n) x) n d ≡ x
get_or-replicate zero x d = refl
get_or-replicate (suc n) x d = get_or-replicate n x d

pub get_or-append : (a b : Bytes) (i d : ℕ) → get_or (a ++ b) (length a + i) d ≡ get_or b i d
get_or-append [] b i d = ap (λ n. get_or b n d) (omega arith)
get_or-append (x ∷ a) b i d =
    let e : length (x ∷ a) + i ≡ suc (length a + i) = omega arith in
    ap (λ n. get_or (x ∷ a ++ b) n d) e ∙ get_or-append a b i d

pad_loop-replicate : (n k : ℕ) → k < 256 → pad_loop (replicate n k) k ≡ true
unfolding pad_loop
pad_loop-replicate zero k h = refl
pad_loop-replicate (suc n) k h = ground (arith, pad_loop-replicate n k)

-- The padding that pkcs7Pad adds, for a block of fewer than 256 bytes.
abbrev pad_len_of : ℕ → ℕ → ℕ
pad_len_of n block_len = block_len - n % block_len

abbrev padded_of : Bytes → ℕ → Bytes
padded_of bytes block_len = let n = pad_len_of (length bytes) block_len in bytes ++ replicate n n

pad_bounds : (n b : ℕ) → 0 < b → (0 < pad_len_of n b) × (pad_len_of n b ≤ b)
pad_bounds n b h = grind arith

pad_whole : (n b : ℕ) → 0 < b → (n + pad_len_of n b) % b ≡ 0
pad_whole n b h = grind arith

pkcs7_pad_lem :
    (bytes : Bytes) (b : ℕ) → 0 < b → b < 256 → pkcs7_pad bytes b ≡ ok (padded_of bytes b)
unfolding pkcs7_pad
pkcs7_pad_lem bytes b h k =
    let (low, high) = pad_bounds (length bytes) b h in
    let n = pad_len_of (length bytes) b in
    let some_block : ltb b 1 ≡ false = ground arith in
    let some_room : (n == 0) ≡ false = ground arith in
    let byte : n % 256 ≡ n = omega arith in rw some_block (rw some_room (rw byte refl))

length-padded : (bytes : Bytes) (n : ℕ) → length (bytes ++ replicate n n) ≡ length bytes + n
length-padded bytes n =
    length-append bytes (replicate n n) ∙ ap (λ k. length bytes + k) (length-replicate n n)

-- Whole blocks that end in `n` bytes of padding.
unpad_lem :
    (bytes : Bytes) (m b : ℕ)
    → 0 < b
    → suc m < 256
    → (length bytes + suc m) % b ≡ 0
    → pkcs7_unpad (bytes ++ replicate (suc m) (suc m)) b ≡ ok bytes
unfolding pkcs7_unpad
unpad_lem bytes m b h k whole =
    let n = suc m in
    let padded = bytes ++ replicate n n in
    let size = length-padded bytes n in
    let some_block : ltb b 1 ≡ false = ground arith in
    let blocks : (not (length padded % b == 0) || length padded == 0) ≡ false =
      rw size (rw whole (ground arith)) in
    let last : get_or padded (length padded - 1) 0 ≡ n =
      ap (λ i. get_or padded i 0) (omega (arith, size))
      ∙ get_or-append bytes (replicate n n) m 0
      ∙ get_or-replicate m n 0 in
    let enough : ltb (length padded) n ≡ false = ground (arith, size) in
    let same : pad_loop (drop (length padded - n) padded) n ≡ true =
      ap (λ l. pad_loop l n) (drop-append bytes (replicate n n) _ (omega (arith, size)))
      ∙ pad_loop-replicate n n k in
    let data_part : take (length padded - n) padded ≡ bytes =
      take-middle bytes (replicate n n) _ (omega (arith, size)) in
    rw some_block (rw blocks (rw last (rw enough (rw same (ap ok data_part)))))

-- A digit or a letter of ASCII.
abbrev pub IsAlphanumeric : ℕ → Type 0
IsAlphanumeric x =
    ((b'0' ≤ x) × (x ≤ b'9')) ⊎ (((b'A' ≤ x) × (x ≤ b'Z')) ⊎ ((b'a' ≤ x) × (x ≤ b'z')))

-- What the code relies on of the libraries: a CBC decrypter undoes the encrypter with the same key and
-- IV, which keeps the length. A hash is made of bytes, a hex text of digits and letters, and
-- DecodeString undoes EncodeToString.
pub record IsLibrary (lib : Library) : Type 0 where
  pub decrypt_encrypt :
      (key iv bytes : Bytes)
      → lib.valid_key key ≡ true
      → length iv ≡ block_size
      → length bytes % block_size ≡ 0
      → (lib.decrypt key iv (lib.encrypt key iv bytes) ≡ bytes)
        × (length (lib.encrypt key iv bytes) ≡ length bytes)
  pub hash_good : (bytes : Bytes) → All IsByte (lib.sha384 bytes)
  pub hex_good :
      (bytes : Bytes) → All IsByte bytes → lib.decode_hex (lib.encode_hex bytes) ≡ ok bytes
  pub hex_text : (bytes : Bytes) → All IsByte bytes → All IsAlphanumeric (lib.encode_hex bytes)
  pub hex_empty : lib.decode_hex [] ≡ ok []

-- A blob that decrypts to the bytes it was made of, is one to sixteen bytes longer, and may be sent if
-- they leave one byte of the largest blob.
abbrev pub IsBlobOf : Library → Bytes → Bytes → Bytes → Bytes → Type 0
IsBlobOf lib key iv bytes b =
    (plaintext lib b key iv ≡ ok bytes)
    × (length bytes < length b)
    × (length b ≤ length bytes + block_size)
    × (length bytes < max_blob_size → valid_for_send b ≡ none)

crypt_blocks_lem :
    (crypt : Bytes → Bytes) (bytes : Bytes)
    → length bytes % block_size ≡ 0
    → crypt_blocks crypt bytes ≡ ok (crypt bytes)
unfolding crypt_blocks
crypt_blocks_lem crypt bytes whole = rw whole refl

module _ (lib : Library) (key iv : Bytes) (good_key : lib.valid_key key ≡ true)
    (good_iv : length iv ≡ block_size) where
  pub new_blob_lem :
      (bytes padded : Bytes)
      → 0 < length bytes
      → pkcs7_pad bytes block_size ≡ ok padded
      → length padded % block_size ≡ 0
      → new_blob lib bytes key iv ≡ ok (lib.encrypt key iv padded)
  unfolding new_blob
  new_blob_lem bytes padded some_bytes e whole =
      let nonempty : (length bytes == 0) ≡ false = ground arith in
      let sized : not (length iv == block_size) ≡ false = ground arith in
      rw nonempty
        (rw good_key (rw sized (rw e (crypt_blocks_lem (lib.encrypt key iv) padded whole))))

  pub plaintext_lem :
      (b padded bytes : Bytes)
      → length b % block_size ≡ 0
      → lib.decrypt key iv b ≡ padded
      → pkcs7_unpad padded block_size ≡ ok bytes
      → plaintext lib b key iv ≡ ok bytes
  unfolding plaintext
  plaintext_lem b padded bytes whole e f =
      let sized : not (length iv == block_size) ≡ false = ground arith in
      rw good_key (
        rw sized (
          rw (crypt_blocks_lem (lib.decrypt key iv) b whole)
            (ap (λ p. pkcs7_unpad p block_size) e ∙ f)))

-- The padding of some bytes, and its inverse.
pad_and_unpad : (bytes : Bytes) → pkcs7_unpad (padded_of bytes block_size) block_size ≡ ok bytes
pad_and_unpad bytes =
    let (low, high) = pad_bounds (length bytes) block_size (omega arith) in
    let n = pad_len_of (length bytes) block_size in
    let same : suc (n - 1) ≡ n = omega arith in
    subst (λ k. pkcs7_unpad (bytes ++ replicate k k) block_size ≡ ok bytes) same
      (unpad_lem bytes (n - 1) block_size (omega arith) (omega arith) (
        ap (λ k. (length bytes + k) % block_size) same
        ∙ pad_whole (length bytes) block_size (omega arith)))

sendable : (b : Bytes) → 0 < length b → length b ≤ max_blob_size → valid_for_send b ≡ none
unfolding valid_for_send
sendable b h k =
    let fits : ltb max_blob_size (length b) ≡ false = ground arith in
    let nonempty : (length b == 0) ≡ false = ground arith in rw fits (rw nonempty refl)

-- For a key of a valid length, an IV of one block and at least one byte, NewBlob returns a blob that
-- Plaintext turns back into the bytes, of a size that may be sent if there are fewer bytes than the
-- largest blob has.
pub plaintext-new_blob :
    (lib : Library) (key iv bytes : Bytes)
    → IsLibrary lib
    → lib.valid_key key ≡ true
    → length iv ≡ block_size
    → 0 < length bytes
    → Returns (IsBlobOf lib key iv bytes) (new_blob lib bytes key iv)
plaintext-new_blob lib key iv bytes h good_key good_iv some_bytes =
    let n = pad_len_of (length bytes) block_size in
    let (low, high) = pad_bounds (length bytes) block_size (omega arith) in
    let padded = padded_of bytes block_size in
    let size : length padded ≡ length bytes + n = length-padded bytes n in
    let whole : length padded % block_size ≡ 0 =
      ap (λ k. k % block_size) size ∙ pad_whole (length bytes) block_size (omega arith) in
    let (back, same) = h.decrypt_encrypt key iv padded good_key good_iv whole in
    let b = lib.encrypt key iv padded in
    let made : new_blob lib bytes key iv ≡ ok b =
      new_blob_lem lib key iv good_key good_iv bytes padded some_bytes
        (pkcs7_pad_lem bytes block_size (omega arith) (omega arith)) whole in
    subst (Returns (IsBlobOf lib key iv bytes)) (sym made) (
      plaintext_lem lib key iv good_key good_iv b padded bytes
          (ap (λ k. k % block_size) same ∙ whole) back (pad_and_unpad bytes),
      omega (arith, same, size),
      omega (arith, same, size),
      λ few. sendable b (omega (arith, same, size)) (omega (arith, same, size)),
    )
