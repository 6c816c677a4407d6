-- ===== src/Blob.antt =====
-- stream/blob.go: blobs, their encryption and their padding. A panic of a slice expression or of
-- CryptBlocks is written out.
pub mod Padding
pub mod Damage
use Prim.Native.String.{String}
use lbry_go.Prelude.{
  ℕ, zero, suc, ◌+◌, ◌-◌, ◌*◌, ◌%◌, ◌≡◌, Bool, true, false, not, ◌&&◌, ◌||◌, List, [], ◌∷◌, ◌++◌,
  length, take, drop, get_or, replicate, All, Option, none, some, ltb, leb, ◌==◌, if◌then◌else◌,
  Run, ok, err, panic, ◌>>=◌,
}
use lbry_go.Prelude.Int.{ℤ}
use lbry_go.Messages.{Bytes}

abbrev pub max_blob_size : ℕ
max_blob_size = 2097152

-- aes.BlockSize.
abbrev pub block_size : ℕ
block_size = 16

-- The functions of the libraries: sha512.Sum384, the two of encoding/hex, strconv.Itoa, whether
-- aes.NewCipher takes a key, and CryptBlocks of a new CBC encrypter and decrypter, given a key and an
-- IV, on whole blocks.
pub record Library : Type 0 where
  pub sha384 : Bytes → Bytes
  pub encode_hex : Bytes → Bytes
  pub decode_hex : Bytes → Run Bytes
  pub itoa : ℤ → Bytes
  pub valid_key : Bytes → Bool
  pub encrypt : Bytes → Bytes → Bytes → Bytes
  pub decrypt : Bytes → Bytes → Bytes → Bytes

unfoldable pub hash : Library → Bytes → Bytes
hash lib b = if length b == 0 then [] else lib.sha384 b

unfoldable pub hash_hex : Library → Bytes → Bytes
hash_hex lib b = lib.encode_hex (hash lib b)

-- The error, if there is one.
unfoldable pub valid_for_send : Bytes → Option String
valid_for_send b =
    if ltb max_blob_size (length b)
    then some "blob must be at most 2097152 bytes"
    else if length b == 0
    then some "blob is empty"
    else none

unfoldable pub pkcs7_pad : Bytes → ℕ → Run Bytes
pkcs7_pad bytes block_len =
    if ltb block_len 1
    then err "invalid block length %d"
    else let room = block_len - length bytes % block_len in
      let pad_len = if room == 0 then block_len else room in
      ok (bytes ++ replicate pad_len (pad_len % 256))

-- The loop of pkcs7Unpad: every byte is the length of the padding.
unfoldable pub pad_loop : Bytes → ℕ → Bool
pad_loop [] pad_len = true
pad_loop (padbyte ∷ pad) pad_len =
    let rest = pad_loop pad pad_len in if not (padbyte == pad_len % 256) then false else rest

unfoldable pub pkcs7_unpad : Bytes → ℕ → Run Bytes
pkcs7_unpad bytes block_len =
    if ltb block_len 1
    then err "invalid block length %d"
    else if not (length bytes % block_len == 0) || length bytes == 0
    then err "invalid data length %d"
    else let pad_len = get_or bytes (length bytes - 1) 0 in
      if ltb (length bytes) pad_len
      then panic "slice bounds out of range"
      else if pad_loop (drop (length bytes - pad_len) bytes) pad_len
      then ok (take (length bytes - pad_len) bytes)
      else err "invalid padding"

-- CryptBlocks panics unless it is given whole blocks.
unfoldable pub crypt_blocks : (Bytes → Bytes) → Bytes → Run Bytes
crypt_blocks crypt bytes =
    if length bytes % block_size == 0
    then ok (crypt bytes)
    else panic "crypto/cipher: input not full blocks"

unfoldable pub new_blob : Library → Bytes → Bytes → Bytes → Run Bytes
new_blob lib bytes key iv =
    if length bytes == 0
    then err "cannot encrypt empty slice"
    else if not (lib.valid_key key)
    then err "crypto/aes: invalid key size"
    else if not (length iv == block_size)
    then err "IV length must equal to block size"
    else do padded ← pkcs7_pad bytes block_size; crypt_blocks (lib.encrypt key iv) padded

unfoldable pub plaintext : Library → Bytes → Bytes → Bytes → Run Bytes
plaintext lib b key iv =
    if not (lib.valid_key key)
    then err "crypto/aes: invalid key size"
    else if not (length iv == block_size)
    then err "IV length must equal to block size"
    else do padded ← crypt_blocks (lib.decrypt key iv) b; pkcs7_unpad padded block_size

unfoldable pub decrypt_blob : Library → Bytes → Bytes → Bytes → Run Bytes
decrypt_blob lib b key iv = plaintext lib b key iv
