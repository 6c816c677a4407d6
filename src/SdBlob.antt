-- ===== src/SdBlob.antt =====
-- stream/sdBlob.go and stream/json.go: the descriptor of a stream, its hash and its JSON document.
pub mod Json
pub mod Spaces
use lbry_go.Prelude.{
  ℕ, zero, suc, ◌+◌, ◌≡◌, Bool, true, false, List, [], ◌∷◌, ◌++◌, length, replicate, Option, none,
  some, ltb, ◌==◌, if◌then◌else◌, map, Run, ok, err, panic, must, ◌>>=◌,
}
use lbry_go.Prelude.Int.{ℤ, pos, negsuc, ◌+ℤ◌}
use lbry_go.Messages.{Bytes}
use lbry_go.OrderedMap.{key_eq}
use lbry_go.Blob
use lbry_go.Blob.{Library, block_size}

-- "lbryfile".
abbrev pub stream_type_lbry_file : Bytes
stream_type_lbry_file = b'l' ∷ b'b' ∷ b'r' ∷ b'y' ∷ b'f' ∷ b'i' ∷ b'l' ∷ b'e' ∷ []

-- `size` is the field Length.
pub record BlobInfo : Type 0 where
  pub size : ℤ
  pub blob_num : ℤ
  pub blob_hash : Bytes
  pub iv : Bytes

pub record SdBlob : Type 0 where
  pub stream_name : Bytes
  pub blob_infos : List BlobInfo
  pub stream_type : Bytes
  pub key : Bytes
  pub suggested_file_name : Bytes
  pub stream_hash : Bytes

-- The documents that are handed to encoding/json, with the texts in hex.
pub record JsonBlobInfo : Type 0 where
  pub json_size : ℤ
  pub json_num : ℤ
  pub json_hash : Bytes
  pub json_iv : Bytes

pub record JsonSdBlob : Type 0 where
  pub json_name : Bytes
  pub json_infos : List JsonBlobInfo
  pub json_type : Bytes
  pub json_key : Bytes
  pub json_file_name : Bytes
  pub json_stream_hash : Bytes

-- json.Marshal and json.Unmarshal on these documents.
pub record JsonLibrary : Type 0 where
  pub marshal : JsonSdBlob → Run Bytes
  pub unmarshal : Bytes → Run JsonSdBlob

unfoldable pub info_marshal : Library → BlobInfo → JsonBlobInfo
info_marshal lib bi = record {
  json_size = bi.size;
  json_num = bi.blob_num;
  json_hash = if ltb 0 (length bi.blob_hash) then lib.encode_hex bi.blob_hash else [];
  json_iv = lib.encode_hex bi.iv;
}

unfoldable pub info_unmarshal : Library → JsonBlobInfo → Run BlobInfo
info_unmarshal lib tmp = do
  blob_hash ← lib.decode_hex tmp.json_hash
  iv ← lib.decode_hex tmp.json_iv
  ok (record { size = tmp.json_size; blob_num = tmp.json_num; blob_hash = blob_hash; iv = iv })

unfoldable pub infos_unmarshal : Library → List JsonBlobInfo → Run (List BlobInfo)
infos_unmarshal lib [] = ok []
infos_unmarshal lib (tmp ∷ l) = do
  bi ← info_unmarshal lib tmp
  infos ← infos_unmarshal lib l
  ok (bi ∷ infos)

unfoldable pub sd_marshal : Library → SdBlob → JsonSdBlob
sd_marshal lib s = record {
  json_name = lib.encode_hex s.stream_name;
  json_infos = map (info_marshal lib) s.blob_infos;
  json_type = s.stream_type;
  json_key = lib.encode_hex s.key;
  json_file_name = lib.encode_hex s.suggested_file_name;
  json_stream_hash = lib.encode_hex s.stream_hash;
}

unfoldable pub sd_unmarshal : Library → JsonSdBlob → Run SdBlob
sd_unmarshal lib tmp = do
  infos ← infos_unmarshal lib tmp.json_infos
  name ← lib.decode_hex tmp.json_name
  file_name ← lib.decode_hex tmp.json_file_name
  stream_hash ← lib.decode_hex tmp.json_stream_hash
  key ← lib.decode_hex tmp.json_key
  ok (record {
    stream_name = name;
    blob_infos = infos;
    stream_type = tmp.json_type;
    key = key;
    suggested_file_name = file_name;
    stream_hash = stream_hash;
  })

-- strings.Replace of one byte by it and a space, everywhere.
unfoldable pub spaced_after : ℕ → Bytes → Bytes
spaced_after c [] = []
spaced_after c (x ∷ l) = let rest = spaced_after c l in if x == c then x ∷ b' ' ∷ rest else x ∷ rest

unfoldable pub to_blob : Library → JsonLibrary → SdBlob → Run Bytes
to_blob lib json s = do
  json_sd ← must (json.marshal (sd_marshal lib s))
  ok (spaced_after b':' (spaced_after b',' json_sd))

unfoldable pub from_blob : Library → JsonLibrary → Bytes → Run SdBlob
from_blob lib json b = do tmp ← json.unmarshal b; sd_unmarshal lib tmp

unfoldable pub is_positive : ℤ → Bool
is_positive (pos n) = ltb 0 n
is_positive (negsuc n) = false

unfoldable pub info_hash : Library → BlobInfo → Bytes
info_hash lib bi = lib.sha384 (
    (if is_positive bi.size then lib.encode_hex bi.blob_hash else [])
    ++ lib.itoa bi.blob_num
    ++ lib.encode_hex bi.iv
    ++ lib.itoa bi.size)

-- What streamHash writes to the hash of the blobs.
unfoldable pub info_hashes : Library → List BlobInfo → Bytes
info_hashes lib [] = []
info_hashes lib (bi ∷ infos) = info_hash lib bi ++ info_hashes lib infos

unfoldable pub stream_hash_of : Library → Bytes → Bytes → Bytes → List BlobInfo → Bytes
stream_hash_of lib hex_name hex_key hex_file_name infos =
    lib.sha384 (hex_name ++ hex_key ++ hex_file_name ++ lib.sha384 (info_hashes lib infos))

unfoldable pub compute_stream_hash : Library → SdBlob → Bytes
compute_stream_hash lib s =
    stream_hash_of lib (lib.encode_hex s.stream_name) (lib.encode_hex s.key)
      (lib.encode_hex s.suggested_file_name) s.blob_infos

unfoldable pub is_valid : Library → SdBlob → Bool
is_valid lib s = key_eq s.stream_hash (compute_stream_hash lib s)

unfoldable pub update_stream_hash : Library → SdBlob → SdBlob
update_stream_hash lib s = record s { stream_hash = compute_stream_hash lib s }

unfoldable pub sd_hash : Library → JsonLibrary → SdBlob → Run Bytes
sd_hash lib json s = do b ← to_blob lib json s; ok (lib.sha384 b)

unfoldable pub add_blob : Library → SdBlob → Bytes → Bytes → Run SdBlob
add_blob lib s b iv =
    if length iv == 0
    then panic "empty IV"
    else ok (record s {
      blob_infos =
          s.blob_infos
          ++ record {
            size = pos (length b);
            blob_num = pos (length s.blob_infos);
            blob_hash = Blob.hash lib b;
            iv = iv;
          }
            ∷ [];
    })

unfoldable pub file_size : List BlobInfo → ℤ
file_size [] = pos 0
file_size (bi ∷ infos) = bi.size +ℤ file_size infos

-- rand.Read, which fills one IV, or fails with `none`: the results of the calls to come.
unfoldable pub rand_iv : List (Option Bytes) → Run (Bytes × List (Option Bytes))
rand_iv [] = panic "failed to make random iv"
rand_iv (none ∷ random) = panic "failed to make random iv"
rand_iv (some iv ∷ random) = ok (iv, random)

abbrev pub null_iv : Bytes
null_iv = replicate block_size 0
