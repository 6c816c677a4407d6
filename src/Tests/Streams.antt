-- ===== src/Tests/Streams.antt =====
-- stream/: runs and the theorems on a source of two chunks.
use lbry_go.Prelude.{
  ℕ, true, ◌<◌, ◌≡◌, refl, List, [], ◌∷◌, ◌++◌, length, replicate, map, All, some, ok, panic,
  Returns, arith,
}
use lbry_go.Prelude.Int.{pos}
use lbry_go.Bitmap.{IsByte}
use lbry_go.Messages.{Bytes}
use lbry_go.Blob.{new_blob, pkcs7_pad, pkcs7_unpad}
use lbry_go.Blob.Padding.{IsBlobOf, plaintext-new_blob}
use lbry_go.Blob.Damage.{pkcs7_unpad_last}
use lbry_go.SdBlob.{
  SdBlob, stream_type_lbry_file, to_blob, from_blob, rand_iv, update_stream_hash,
  compute_stream_hash, stream_hash_of,
}
use lbry_go.SdBlob.Json.{IsSdBlob, from_blob-to_blob}
use lbry_go.Stream.{Encoder, stopped, eof, decode, stream, next, next_iv_of, is_terminated}
use lbry_go.Stream.RoundTrip.{Supplies}
use lbry_go.Stream.Encoding.{read_ok}
use lbry_go.Stream.Decoding.{IsReady, decode-stream}
use lbry_go.Stream.Malformed.{decode-no_infos, next-eof}
use lbry_go.Tests.Libraries.{plain, plain-IsLibrary, numbers, numbers-IsJsonLibrary}

abbrev iv : Bytes
iv = replicate 16 7

iv_good : All IsByte iv
iv_good = omega arith

abbrev hello : Bytes
hello = b'h' ∷ b'i' ∷ []

abbrev descriptor : SdBlob
descriptor = record {
  stream_name = b'n' ∷ [];
  blob_infos = [];
  stream_type = stream_type_lbry_file;
  key = replicate 16 9;
  suggested_file_name = b'f' ∷ [];
  stream_hash = [];
}

abbrev two_chunks : Encoder
two_chunks = record {
  src = map read_ok (hello ∷ (b'!' ∷ []) ∷ []);
  ivs = iv ∷ iv ∷ [];
  sd = descriptor;
  src_len = 0;
  written = [];
  random = some iv ∷ [];
}

two_chunks-IsReady : IsReady plain two_chunks (hello ∷ (b'!' ∷ []) ∷ [])
unfolding next_iv_of rand_iv
two_chunks-IsReady = record {
  unused = refl;
  typed = refl;
  name_good = omega arith;
  file_name_good = omega arith;
  key_good = omega arith;
  key_valid = refl;
  reads = refl;
  ivs_good = (refl, iv_good, (refl, iv_good, (refl, iv_good, tt)));
  full = omega arith;
}

padded_hello : pkcs7_pad hello 16 ≡ ok (hello ++ replicate 14 14)
unfolding pkcs7_pad
padded_hello = refl

broken_padding : pkcs7_unpad (replicate 16 17) 16 ≡ panic "slice bounds out of range"
unfolding pkcs7_unpad
broken_padding = refl

plaintext-new_blob_example :
    Returns (IsBlobOf plain (replicate 16 9) iv hello) (new_blob plain hello (replicate 16 9) iv)
plaintext-new_blob_example =
    plaintext-new_blob plain (replicate 16 9) iv hello plain-IsLibrary refl refl (omega arith)

pkcs7_unpad_last_example :
    (◌≡◌ {A = ℕ} 20 0 → pkcs7_unpad (replicate 15 3 ++ 20 ∷ []) 16 ≡ ok (replicate 15 3 ++ 20 ∷ []))
    × (length (replicate {A = ℕ} 15 3 ++ 20 ∷ []) < 20
        → pkcs7_unpad (replicate 15 3 ++ 20 ∷ []) 16 ≡ panic "slice bounds out of range")
pkcs7_unpad_last_example = pkcs7_unpad_last (replicate 15 3) 20 16 (omega arith) refl

hashed-IsSdBlob : IsSdBlob (update_stream_hash plain descriptor)
unfolding update_stream_hash compute_stream_hash stream_hash_of
hashed-IsSdBlob = record {
  name_good = omega arith;
  file_name_good = omega arith;
  key_good = omega arith;
  hash_good = (omega arith, tt);
  infos_good = tt;
}

abbrev listed : SdBlob
listed = record descriptor {
  blob_infos =
      record { size = pos 16; blob_num = pos 0; blob_hash = 5 ∷ []; iv = iv }
      ∷ record { size = pos 0; blob_num = pos 1; blob_hash = []; iv = iv }
      ∷ [];
}

listed-IsSdBlob : IsSdBlob listed
listed-IsSdBlob = record {
  name_good = omega arith;
  file_name_good = omega arith;
  key_good = omega arith;
  hash_good = tt;
  infos_good = (((omega arith, tt), iv_good), ((tt, iv_good), tt));
}

from_blob-to_blob_example :
    Returns (λ b. from_blob plain numbers b ≡ ok listed) (to_blob plain numbers listed)
from_blob-to_blob_example =
    from_blob-to_blob plain numbers listed plain-IsLibrary numbers-IsJsonLibrary listed-IsSdBlob
      refl

decode-stream_example :
    Returns
      (λ r. decode plain numbers r.1 ≡ ok (b'h' ∷ b'i' ∷ b'!' ∷ []))
      (stream plain numbers two_chunks)
decode-stream_example =
    decode-stream plain numbers two_chunks hello ((b'!' ∷ []) ∷ []) plain-IsLibrary
      numbers-IsJsonLibrary two_chunks-IsReady

decode-no_infos_example :
    Returns
      (λ first.
        (b : Bytes) (s : List Bytes)
        → decode plain numbers (first ∷ b ∷ s) ≡ panic "index out of range [-1]")
      (to_blob plain numbers (update_stream_hash plain descriptor))
decode-no_infos_example =
    decode-no_infos plain numbers descriptor plain-IsLibrary numbers-IsJsonLibrary hashed-IsSdBlob
      refl refl

one_iv : Supplies 1 two_chunks.ivs two_chunks.random
unfolding next_iv_of
one_iv = (refl, iv_good, tt)

next-eof_example :
    Returns
      (λ (e', result).
        (result ≡ stopped eof) × (is_terminated e' ≡ true) × (e'.src_len ≡ 0) × (e'.written ≡ []))
      (next plain (record two_chunks { src = record { bytes = hello; error = some eof } ∷ [] }))
next-eof_example = next-eof plain two_chunks hello [] one_iv
