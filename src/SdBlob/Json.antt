-- ===== src/SdBlob/Json.antt =====
-- stream/json.go: a descriptor is read back from its document, and from its blob.
use lbry_go.Prelude.{
  ◌≡◌, refl, true, List, [], ◌∷◌, length, All, ltb, if◌then◌else◌, map, Run, ok, err, panic,
  out_of_fuel, must, ◌>>=◌, Returns, arith,
}
use lbry_go.Bitmap.{IsByte}
use lbry_go.Messages.{Bytes}
use lbry_go.Blob.{Library}
use lbry_go.Blob.Padding.{IsLibrary, IsAlphanumeric}
use lbry_go.SdBlob.{
  BlobInfo, SdBlob, JsonBlobInfo, JsonSdBlob, JsonLibrary, info_marshal, info_unmarshal,
  infos_unmarshal, sd_marshal, sd_unmarshal, spaced_after, to_blob, from_blob,
  stream_type_lbry_file,
}
use lbry_go.SdBlob.Spaces.{outside, Quiet, Respaced, spaced_after-Respaced}

abbrev pub IsInfo : BlobInfo → Type 0
IsInfo bi = All IsByte bi.blob_hash × All IsByte bi.iv

-- The texts of a descriptor are made of bytes.
pub record IsSdBlob (s : SdBlob) : Type 0 where
  pub name_good : All IsByte s.stream_name
  pub file_name_good : All IsByte s.suggested_file_name
  pub key_good : All IsByte s.key
  pub hash_good : All IsByte s.stream_hash
  pub infos_good : All IsInfo s.blob_infos

-- The texts of a document are made of digits and letters.
abbrev pub IsPlainInfo : JsonBlobInfo → Type 0
IsPlainInfo i = All IsAlphanumeric i.json_hash × All IsAlphanumeric i.json_iv

pub record IsPlain (d : JsonSdBlob) : Type 0 where
  pub name_plain : All IsAlphanumeric d.json_name
  pub infos_plain : All IsPlainInfo d.json_infos
  pub type_plain : All IsAlphanumeric d.json_type
  pub key_plain : All IsAlphanumeric d.json_key
  pub file_name_plain : All IsAlphanumeric d.json_file_name
  pub stream_hash_plain : All IsAlphanumeric d.json_stream_hash

-- What the code relies on of encoding/json: Marshal writes digits and letters as they are, so that the
-- strings of a document of such texts have no comma or colon, and Unmarshal reads back what Marshal
-- writes; and a space between two tokens means nothing to Unmarshal.
pub record IsJsonLibrary (json : JsonLibrary) : Type 0 where
  pub marshal_good :
      (d : JsonSdBlob)
      → IsPlain d
      → Returns (λ b. Quiet outside b × (json.unmarshal b ≡ ok d)) (json.marshal d)
  pub spaces :
      (b b' : Bytes) (d : JsonSdBlob)
      → Respaced outside b b'
      → json.unmarshal b ≡ ok d
      → json.unmarshal b' ≡ ok d

module _ (lib : Library) (h : IsLibrary lib) where
  hash_text :
      (b : Bytes)
      → All IsByte b
      → lib.decode_hex (if ltb 0 (length b) then lib.encode_hex b else []) ≡ ok b
  hash_text [] g = h.hex_empty
  hash_text (x ∷ b) g =
      let some_bytes : ltb 0 (length (x ∷ b)) ≡ true = ground arith in
      rw some_bytes (h.hex_good (x ∷ b) g)

  info_unmarshal-info_marshal :
      (bi : BlobInfo) → IsInfo bi → info_unmarshal lib (info_marshal lib bi) ≡ ok bi
  unfolding info_unmarshal info_marshal
  info_unmarshal-info_marshal bi g =
      rw (hash_text bi.blob_hash g.0) (rw (h.hex_good bi.iv g.1) refl)

  infos_unmarshal-map :
      (infos : List BlobInfo)
      → All IsInfo infos
      → infos_unmarshal lib (map (info_marshal lib) infos) ≡ ok infos
  unfolding infos_unmarshal
  infos_unmarshal-map [] g = refl
  infos_unmarshal-map (bi ∷ infos) g =
      rw (info_unmarshal-info_marshal bi g.0) (rw (infos_unmarshal-map infos g.1) refl)

  pub sd_unmarshal-sd_marshal :
      (s : SdBlob) → IsSdBlob s → sd_unmarshal lib (sd_marshal lib s) ≡ ok s
  unfolding sd_unmarshal sd_marshal
  sd_unmarshal-sd_marshal s g = rw (infos_unmarshal-map s.blob_infos g.infos_good) (
      rw (h.hex_good s.stream_name g.name_good) (
        rw (h.hex_good s.suggested_file_name g.file_name_good)
          (rw (h.hex_good s.stream_hash g.hash_good) (rw (h.hex_good s.key g.key_good) refl))))

  info_marshal-IsPlainInfo : (bi : BlobInfo) → IsInfo bi → IsPlainInfo (info_marshal lib bi)
  unfolding info_marshal
  info_marshal-IsPlainInfo bi g = (plain_hash bi.blob_hash g.0, h.hex_text bi.iv g.1)
    where
      plain_hash :
          (b : Bytes)
          → All IsByte b
          → All IsAlphanumeric (if ltb 0 (length b) then lib.encode_hex b else [])
      plain_hash [] k = tt
      plain_hash (x ∷ b) k =
          let some_bytes : ltb 0 (length (x ∷ b)) ≡ true = ground arith in
          rw some_bytes (h.hex_text (x ∷ b) k)

  infos-IsPlainInfo :
      (infos : List BlobInfo) → All IsInfo infos → All IsPlainInfo (map (info_marshal lib) infos)
  infos-IsPlainInfo [] g = tt
  infos-IsPlainInfo (bi ∷ infos) g = (info_marshal-IsPlainInfo bi g.0, infos-IsPlainInfo infos g.1)

  sd_marshal-IsPlain :
      (s : SdBlob) → IsSdBlob s → s.stream_type ≡ stream_type_lbry_file → IsPlain (sd_marshal lib s)
  unfolding sd_marshal
  sd_marshal-IsPlain s g e = record {
    name_plain = h.hex_text s.stream_name g.name_good;
    infos_plain = infos-IsPlainInfo s.blob_infos g.infos_good;
    type_plain = rw e lbryfile_plain;
    key_plain = h.hex_text s.key g.key_good;
    file_name_plain = h.hex_text s.suggested_file_name g.file_name_good;
    stream_hash_plain = h.hex_text s.stream_hash g.hash_good;
  }
    where
      lbryfile_plain : All IsAlphanumeric stream_type_lbry_file
      lbryfile_plain = ground arith

-- From libraries that behave as documented, a descriptor of the type "lbryfile" whose texts are made
-- of bytes becomes a blob, and is read back from it.
pub from_blob-to_blob :
    (lib : Library) (json : JsonLibrary) (s : SdBlob)
    → IsLibrary lib
    → IsJsonLibrary json
    → IsSdBlob s
    → s.stream_type ≡ stream_type_lbry_file
    → Returns (λ b. from_blob lib json b ≡ ok s) (to_blob lib json s)
unfolding to_blob from_blob
from_blob-to_blob lib json s h j g e =
    marshalled (json.marshal (sd_marshal lib s))
      (j.marshal_good (sd_marshal lib s) (sd_marshal-IsPlain lib h s g e))
  where
    marshalled :
        (m : Run Bytes)
        → Returns (λ b. Quiet outside b × (json.unmarshal b ≡ ok (sd_marshal lib s))) m
        → Returns
            (λ b. from_blob lib json b ≡ ok s)
            (must m >>= λ json_sd. ok (spaced_after b':' (spaced_after b',' json_sd)))
    marshalled (ok b) (quiet, back) =
        rw (j.spaces b _ (sd_marshal lib s) (spaced_after-Respaced outside b quiet) back)
          (sd_unmarshal-sd_marshal lib h s g)
    marshalled (err message) p = absurd p
    marshalled (panic message) p = absurd p
    marshalled out_of_fuel p = absurd p
