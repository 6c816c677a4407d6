-- ===== src/Tests/Libraries.antt =====
-- Functions with the properties that stream/ relies on of its libraries: ciphers that change nothing, a hash of one byte, and documents written as numbers.
use lbry_go.Prelude.{
  ℕ, zero, suc, ◌+◌, ◌-◌, ◌/◌, ◌%◌, ◌<◌, All, if◌then◌else◌, ◌≡◌, refl, ap, ◌∙◌, false, List, [],
  ◌∷◌, ◌++◌, length, take, take-middle, drop, drop-append, ◌==◌, ok, arith,
}
use lbry_go.Prelude.Int.{ℤ, pos, negsuc, pos_part}
use lbry_go.Bitmap.{IsByte}
use lbry_go.Bitmap.Hex.{encode, decode, hex_digit}
use lbry_go.Bitmap.Text.{decode-encode}
use lbry_go.Messages.{Bytes}
use lbry_go.Blob.{Library}
use lbry_go.Blob.Padding.{IsLibrary, IsAlphanumeric}
use lbry_go.SdBlob.{JsonBlobInfo, JsonSdBlob, JsonLibrary}
use lbry_go.SdBlob.Json.{IsJsonLibrary}
use lbry_go.SdBlob.Spaces.{Place, outside, Quiet, Respaced, end, keep, space}

abbrev pub plain : Library
plain = record {
  sha384 = λ b. length b % 256 ∷ [];
  encode_hex = encode;
  decode_hex = decode;
  itoa = λ z. pos_part z ∷ [];
  valid_key = λ key. length key == 16;
  encrypt = λ key iv b. b;
  decrypt = λ key iv b. b;
}

hex_digit-IsAlphanumeric : (d : ℕ) → d < 16 → IsAlphanumeric (hex_digit d)
unfolding hex_digit
hex_digit-IsAlphanumeric d h = ground arith

encode-IsAlphanumeric : (b : Bytes) → All IsByte b → All IsAlphanumeric (encode b)
unfolding encode
encode-IsAlphanumeric [] h = tt
encode-IsAlphanumeric (x ∷ b) h = (
  hex_digit-IsAlphanumeric (x / 16) (omega arith),
  (hex_digit-IsAlphanumeric (x % 16) (omega arith), encode-IsAlphanumeric b h.1),
)

pub plain-IsLibrary : IsLibrary plain
unfolding decode
plain-IsLibrary = record {
  decrypt_encrypt = λ key iv bytes k i w. (refl, refl);
  hash_good = λ bytes. (omega arith, tt);
  hex_good = decode-encode;
  hex_text = encode-IsAlphanumeric;
  hex_empty = refl;
}

text : Bytes → Bytes → Bytes
text b rest = length b ∷ (b ++ rest)

int : ℤ → Bytes → Bytes
int (pos n) rest = 0 ∷ n ∷ rest
int (negsuc n) rest = 1 ∷ n ∷ rest

info : JsonBlobInfo → Bytes → Bytes
info i rest = int i.json_size (int i.json_num (text i.json_hash (text i.json_iv rest)))

infos : List JsonBlobInfo → Bytes → Bytes
infos [] rest = rest
infos (i ∷ l) rest = info i (infos l rest)

document : JsonSdBlob → Bytes
document d = text d.json_name (
    length d.json_infos
    ∷ infos d.json_infos
        (text d.json_type (text d.json_key (text d.json_file_name (text d.json_stream_hash [])))))

read_text : Bytes → Bytes × Bytes
read_text [] = ([], [])
read_text (n ∷ l) = (take n l, drop n l)

read_int : Bytes → ℤ × Bytes
read_int (zero ∷ n ∷ l) = (pos n, l)
read_int (suc tag ∷ n ∷ l) = (negsuc n, l)
read_int (tag ∷ []) = (pos 0, [])
read_int [] = (pos 0, [])

read_info : Bytes → JsonBlobInfo × Bytes
read_info l =
    let (a, l₁) = read_int l in
    let (b, l₂) = read_int l₁ in
    let (c, l₃) = read_text l₂ in
    let (d, l₄) = read_text l₃ in
    (record { json_size = a; json_num = b; json_hash = c; json_iv = d }, l₄)

read_infos : ℕ → Bytes → List JsonBlobInfo × Bytes
read_infos zero l = ([], l)
read_infos (suc n) l = let (i, l₁) = read_info l in let (is, l₂) = read_infos n l₁ in (i ∷ is, l₂)

read_counted : Bytes → List JsonBlobInfo × Bytes
read_counted [] = ([], [])
read_counted (n ∷ l) = read_infos n l

read_document : Bytes → JsonSdBlob
read_document l =
    let (a, l₁) = read_text l in
    let (b, l₂) = read_counted l₁ in
    let (c, l₃) = read_text l₂ in
    let (d, l₄) = read_text l₃ in
    let (e, l₅) = read_text l₄ in
    let (f, l₆) = read_text l₅ in
    record {
      json_name = a;
      json_infos = b;
      json_type = c;
      json_key = d;
      json_file_name = e;
      json_stream_hash = f;
    }

read_text-text : (b rest : Bytes) → read_text (text b rest) ≡ (b, rest)
unfolding read_text text
read_text-text b rest =
    ap (λ a. (a, drop (length b) (b ++ rest))) (take-middle b rest (length b) refl)
    ∙ ap (λ r. (b, r)) (drop-append b rest (length b) refl)

read_int-int : (z : ℤ) (rest : Bytes) → read_int (int z rest) ≡ (z, rest)
unfolding read_int int
read_int-int (pos n) rest = refl
read_int-int (negsuc n) rest = refl

read_info-info : (i : JsonBlobInfo) (rest : Bytes) → read_info (info i rest) ≡ (i, rest)
unfolding read_info info
read_info-info i rest =
    rw (read_int-int i.json_size (int i.json_num (text i.json_hash (text i.json_iv rest)))) (
      rw (read_int-int i.json_num (text i.json_hash (text i.json_iv rest))) (
        rw (read_text-text i.json_hash (text i.json_iv rest))
          (rw (read_text-text i.json_iv rest) refl)))

read_infos-infos :
    (l : List JsonBlobInfo) (rest : Bytes) → read_infos (length l) (infos l rest) ≡ (l, rest)
unfolding read_infos infos
read_infos-infos [] rest = refl
read_infos-infos (i ∷ l) rest =
    rw (read_info-info i (infos l rest)) (rw (read_infos-infos l rest) refl)

read_document-document : (d : JsonSdBlob) → read_document (document d) ≡ d
unfolding read_document document read_counted
read_document-document d =
    let l₅ = text d.json_stream_hash [] in
    let l₄ = text d.json_file_name l₅ in
    let l₃ = text d.json_key l₄ in
    let l₂ = text d.json_type l₃ in
    rw (read_text-text d.json_name (length d.json_infos ∷ infos d.json_infos l₂)) (
      rw (read_infos-infos d.json_infos l₂) (
        rw (read_text-text d.json_type l₃) (
          rw (read_text-text d.json_key l₄) (
            rw (read_text-text d.json_file_name l₅)
              (rw (read_text-text d.json_stream_hash []) refl)))))

-- Above every byte of punctuation.
shifted : Bytes → Bytes
shifted [] = []
shifted (x ∷ l) = (x + 59) ∷ shifted l

unshifted : Bytes → Bytes
unshifted [] = []
unshifted (x ∷ l) = (x - 59) ∷ unshifted l

-- Without the spaces.
stripped : Bytes → Bytes
stripped [] = []
stripped (x ∷ l) = let rest = stripped l in if x == b' ' then rest else x ∷ rest

unshifted-shifted : (l : Bytes) → unshifted (stripped (shifted l)) ≡ l
unfolding unshifted shifted stripped
unshifted-shifted [] = refl
unshifted-shifted (x ∷ l) =
    let other : (x + 59 == b' ') ≡ false = ground arith in
    rw other (
      ap (λ y. y ∷ unshifted (stripped (shifted l))) (omega arith)
      ∙ ap (◌∷◌ x) (unshifted-shifted l))

shifted-Quiet : (l : Bytes) → Quiet outside (shifted l)
unfolding shifted
shifted-Quiet [] = tt
shifted-Quiet (x ∷ l) =
    let other : (x + 59 == b'"') ≡ false = ground arith in (λ m. refl, rw other (shifted-Quiet l))

stripped-Respaced : {p : Place} {b b' : Bytes} → Respaced p b b' → stripped b' ≡ stripped b
unfolding stripped
stripped-Respaced end = refl
stripped-Respaced (keep x r) =
    ap (λ rest. if x == b' ' then rest else x ∷ rest) (stripped-Respaced r)
stripped-Respaced (space x m r) =
    ap (λ rest. if x == b' ' then rest else x ∷ rest) (stripped-Respaced r)

pub numbers : JsonLibrary
numbers = record {
  marshal = λ d. ok (shifted (document d));
  unmarshal = λ b. ok (read_document (unshifted (stripped b)));
}

pub numbers-IsJsonLibrary : IsJsonLibrary numbers
unfolding numbers
numbers-IsJsonLibrary = record {
  marshal_good = λ d plain_texts. (
    shifted-Quiet (document d),
    rw (unshifted-shifted (document d)) (ap ok (read_document-document d)),
  );
  spaces = λ b b' d r e. ap (λ l. ok (read_document (unshifted l))) (stripped-Respaced r) ∙ e;
}
