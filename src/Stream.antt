-- ===== src/Stream.antt =====
-- stream/stream.go: streams of blobs, their encoder and their decoder. The reader is the list of the
-- results of its calls, and ends with io.EOF. Hints about sizes and preallocation are left out.
pub mod RoundTrip
pub mod Encoding
pub mod Decoding
pub mod Malformed
use Prim.Native.String.{String}
use lbry_go.Prelude.{
  ℕ, zero, suc, ◌+◌, ◌-◌, ◌≡◌, Bool, true, false, not, ◌&&◌, ◌||◌, List, [], ◌∷◌, ◌++◌, length,
  get_elem?, Option, none, some, ltb, leb, ◌==◌, if◌then◌else◌, Run, ok, err, panic, out_of_fuel,
  ◌>>=◌,
}
use lbry_go.Prelude.Int.{ℤ, pos, negsuc}
use lbry_go.Messages.{Bytes}
use lbry_go.OrderedMap.{key_eq}
use lbry_go.Blob
use lbry_go.Blob.{Library, max_blob_size, new_blob, plaintext}
use lbry_go.SdBlob.{
  SdBlob, BlobInfo, JsonLibrary, stream_type_lbry_file, add_blob, update_stream_hash, to_blob,
  from_blob, is_valid, rand_iv,
}

abbrev pub max_blob_data_size : ℕ
max_blob_data_size = max_blob_size - 1

pub data ReadError : Type 0 where
  eof : ReadError
  failed : String → ReadError

-- A call of Read: the bytes it puts into the buffer, and its error, if any.
pub record ReadResult : Type 0 where
  pub bytes : Bytes
  pub error : Option ReadError

-- `written` is what has been written to srcHash, and `random` the randomness to come.
pub record Encoder : Type 0 where
  pub src : List ReadResult
  pub ivs : List Bytes
  pub sd : SdBlob
  pub src_len : ℕ
  pub written : Bytes
  pub random : List (Option Bytes)

unfoldable pub new_encoder : List ReadResult → List (Option Bytes) → Run Encoder
new_encoder src random = do
  drawn ← rand_iv random
  ok (record {
    src = src;
    ivs = [];
    sd = record {
      stream_name = [];
      blob_infos = [];
      stream_type = stream_type_lbry_file;
      key = drawn.0;
      suggested_file_name = [];
      stream_hash = [];
    };
    src_len = 0;
    written = [];
    random = drawn.1;
  })

unfoldable pub new_encoder_with_ivs :
    List ReadResult → Bytes → List Bytes → List (Option Bytes) → Run Encoder
new_encoder_with_ivs src key ivs random = do
  e ← new_encoder src random
  ok (record e { sd = record e.sd { key = key }; ivs = ivs })

unfoldable pub ivs_of : List BlobInfo → List Bytes
ivs_of [] = []
ivs_of (bi ∷ infos) = bi.iv ∷ ivs_of infos

unfoldable pub new_encoder_from_sd : List ReadResult → SdBlob → List (Option Bytes) → Run Encoder
new_encoder_from_sd src sd random = do
  e ← new_encoder_with_ivs src sd.key (ivs_of sd.blob_infos) random
  ok (record e {
    sd = record e.sd { stream_name = sd.stream_name; suggested_file_name = sd.suggested_file_name };
  })

-- The next preset IV, or a random one.
unfoldable pub next_iv_of :
    List Bytes → List (Option Bytes) → Run (Bytes × List Bytes × List (Option Bytes))
next_iv_of [] random = do drawn ← rand_iv random; ok (drawn.0, [], drawn.1)
next_iv_of (iv ∷ ivs) random = ok (iv, ivs, random)

unfoldable pub next_iv : Encoder → Run (Bytes × Encoder)
next_iv e = do
  drawn ← next_iv_of e.ivs e.random
  ok (drawn.0, record e { ivs = drawn.1; random = drawn.2 })

unfoldable pub is_zero : ℤ → Bool
is_zero (pos n) = n == 0
is_zero (negsuc n) = false

unfoldable pub ends_empty : List BlobInfo → Bool
ends_empty [] = false
ends_empty (bi ∷ []) = is_zero bi.size
ends_empty (bi ∷ b ∷ infos) = ends_empty (b ∷ infos)

unfoldable pub is_terminated : Encoder → Bool
is_terminated e = ends_empty e.sd.blob_infos

unfoldable pub ensure_terminated : Library → Encoder → Run Encoder
ensure_terminated lib e =
    if not (is_terminated e)
    then (do
      drawn ← next_iv e
      sd ← add_blob lib drawn.1.sd [] drawn.0
      ok (record drawn.1 { sd = sd }))
    else ok e

-- What Next returns: a blob, or the error of the reader.
pub data NextResult : Type 0 where
  made : Bytes → NextResult
  stopped : ReadError → NextResult

-- Next once it has read `n` bytes without an error. An error of NewBlob ends the model's run.
unfoldable pub encode_next : Library → Encoder → Bytes → Run (Encoder × NextResult)
encode_next lib e bytes = do
  drawn ← next_iv (record e { src_len = e.src_len + length bytes; written = e.written ++ bytes })
  blob ← new_blob lib bytes drawn.1.sd.key drawn.0
  sd ← add_blob lib drawn.1.sd blob drawn.0
  ok (record drawn.1 { sd = sd }, made blob)

-- Next once it has read. An error of the reader comes first: the bytes that come with it are dropped.
unfoldable pub after_read :
    Library → Encoder → Bytes → Option ReadError → Run (Encoder × NextResult)
after_read lib e bytes none = encode_next lib e bytes
after_read lib e bytes (some eof) = do e' ← ensure_terminated lib e; ok (e', stopped eof)
after_read lib e bytes (some (failed message)) = ok (e, stopped (failed message))

unfoldable pub next_from : Library → Encoder → List ReadResult → Run (Encoder × NextResult)
next_from lib e [] = after_read lib e [] (some eof)
next_from lib e (r ∷ src) = after_read lib (record e { src = src }) r.bytes r.error

unfoldable pub next : Library → Encoder → Run (Encoder × NextResult)
next lib e = next_from lib e e.src

-- The loop of Encoder.Stream, with the blobs so far.
unfoldable pub stream_loop : Library → ℕ → Encoder → List Bytes → Run (Encoder × List Bytes)
stream_loop lib zero e blobs = out_of_fuel
stream_loop lib (suc fuel) e blobs = next lib e >>= λ r. elim r.1 [
  | made blob ↦ stream_loop lib fuel r.0 (blobs ++ blob ∷ [])
  | stopped error ↦ elim error [ eof ↦ ok (r.0, blobs) | failed message ↦ err message ]
]

unfoldable pub sd_blob : Library → Encoder → Encoder
sd_blob lib e = record e { sd = update_stream_hash lib e.sd }

-- Each call of Next but the last one takes a result of the reader.
unfoldable pub stream : Library → JsonLibrary → Encoder → Run (Encoder × List Bytes)
stream lib json e = do
  r ← stream_loop lib (suc (length e.src)) e []
  first ← to_blob lib json (sd_blob lib r.0).sd
  ok (sd_blob lib r.0, first ∷ r.1)

unfoldable pub new :
    Library → JsonLibrary → List ReadResult → List (Option Bytes) → Run (List Bytes)
new lib json src random = do e ← new_encoder src random; r ← stream lib json e; ok r.1

unfoldable pub source_hash : Library → Encoder → Bytes
source_hash lib e = lib.sha384 e.written

-- The last of the infos, `sdBlob.BlobInfos[len(sdBlob.BlobInfos)-1]`, which panics if there is none.
unfoldable pub last_info : List BlobInfo → Run BlobInfo
last_info [] = panic "index out of range [-1]"
last_info (bi ∷ []) = ok bi
last_info (bi ∷ b ∷ infos) = last_info (b ∷ infos)

unfoldable pub is_num : ℤ → ℕ → Bool
is_num (pos n) i = n == i
is_num (negsuc n) i = false

-- The blob of an info, whose index is out of range with `none`.
unfoldable pub decode_blob : Library → Bytes → Option Bytes → BlobInfo → Run Bytes
decode_blob lib key none bi = panic "index out of range"
decode_blob lib key (some blob) bi =
    if not (key_eq (Blob.hash lib blob) bi.blob_hash)
    then err "blob hash doesn't match hash in blobInfo"
    else plaintext lib blob key bi.iv

-- The loop of Decode over the infos from the i-th on, of `count` in all.
unfoldable pub decode_loop :
    Library → Bytes → List Bytes → ℕ → List BlobInfo → ℕ → Bytes → Run Bytes
decode_loop lib key s count [] i file = ok file
decode_loop lib key s count (bi ∷ infos) i file =
    let rest = λ (b : Bytes). decode_loop lib key s count infos (i + 1) (file ++ b) in
    if is_zero bi.size
    then if not (i == count - 1) then err "got 0-length blob before end of stream" else ok file
    else if not (is_num bi.blob_num i)
    then err "blobs are out of order in sd blob"
    else decode_blob lib key (get_elem? s (i + 1)) bi >>= rest

unfoldable pub decode_sd : Library → SdBlob → List Bytes → Run Bytes
decode_sd lib sd s =
    if not (is_valid lib sd)
    then err "sd blob is not valid"
    else last_info sd.blob_infos >>= λ last.
        if not (is_zero last.size)
        then err "sd blob is missing the terminating 0-length blob"
        else if not (length s - 1 == length sd.blob_infos - 1)
        then err "number of blobs in stream does not match number of blobs in sd info"
        else decode_loop lib sd.key s (length sd.blob_infos) sd.blob_infos 0 []

unfoldable pub decode : Library → JsonLibrary → List Bytes → Run Bytes
decode lib json [] = err "stream must be at least 2 blobs long"
decode lib json (b ∷ []) = err "stream must be at least 2 blobs long"
decode lib json (b ∷ c ∷ s) = do sd ← from_blob lib json b; decode_sd lib sd (b ∷ c ∷ s)
