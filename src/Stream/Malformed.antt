-- ===== src/Stream/Malformed.antt =====
-- stream/stream.go: descriptors without infos, and bytes that come with the end of the source.
use lbry_go.Prelude.{
  ◌≡◌, refl, ap, true, List, [], ◌∷◌, some, panic, Returns, Returns-value, Returns-imp, Bool-cases,
  inl, inr,
}
use lbry_go.Messages.{Bytes}
use lbry_go.OrderedMap.Places.{key_eq_self}
use lbry_go.Blob.{Library}
use lbry_go.Blob.Padding.{IsLibrary}
use lbry_go.SdBlob.{
  SdBlob, JsonLibrary, stream_type_lbry_file, is_valid, update_stream_hash, compute_stream_hash,
  to_blob,
}
use lbry_go.SdBlob.Json.{IsSdBlob, IsJsonLibrary, from_blob-to_blob}
use lbry_go.Stream.{
  Encoder, ReadResult, stopped, eof, decode, decode_sd, last_info, next, next_from, after_read,
  next_iv, next_iv_of, is_zero, ensure_terminated, is_terminated, ends_empty,
}
use lbry_go.Stream.RoundTrip.{Supplies, ends_empty-append, add_blob_lem}

empty_lem :
    (lib : Library) (sd : SdBlob) (s : List Bytes)
    → sd.blob_infos ≡ []
    → decode_sd lib (update_stream_hash lib sd) s ≡ panic "index out of range [-1]"
unfolding decode_sd is_valid update_stream_hash compute_stream_hash last_info
empty_lem lib sd s e =
    let valid = key_eq_self (compute_stream_hash lib sd) in
    let none_last : last_info sd.blob_infos ≡ panic "index out of range [-1]" = ap last_info e in
    rw valid (rw none_last refl)

-- From libraries that behave as documented, a descriptor of the type "lbryfile" without infos, whose
-- texts are made of bytes and whose stream hash is right, becomes a blob, and Decode panics on every
-- stream of that blob, another one and any more.
pub decode-no_infos :
    (lib : Library) (json : JsonLibrary) (sd : SdBlob)
    → IsLibrary lib
    → IsJsonLibrary json
    → IsSdBlob (update_stream_hash lib sd)
    → sd.stream_type ≡ stream_type_lbry_file
    → sd.blob_infos ≡ []
    → Returns
        (λ first.
          (b : Bytes) (s : List Bytes)
          → decode lib json (first ∷ b ∷ s) ≡ panic "index out of range [-1]")
        (to_blob lib json (update_stream_hash lib sd))
unfolding decode update_stream_hash
decode-no_infos lib json sd h j good typed e =
    Returns-imp _ _ (to_blob lib json (update_stream_hash lib sd))
      (λ first read b s. rw read (empty_lem lib sd (first ∷ b ∷ s) e))
      (from_blob-to_blob lib json (update_stream_hash lib sd) h j good typed)

-- What Next returns at the end of the source, where one IV is left: the descriptor is terminated, and
-- the bytes that Read returned together with io.EOF are neither counted nor hashed nor encoded.
pub next-eof :
    (lib : Library) (e : Encoder) (dropped : Bytes) (src : List ReadResult)
    → Supplies 1 e.ivs e.random
    → Returns
        (λ (e', result).
          (result ≡ stopped eof)
          × (is_terminated e' ≡ true)
          × (e'.src_len ≡ e.src_len)
          × (e'.written ≡ e.written))
        (next lib (record e { src = record { bytes = dropped; error = some eof } ∷ src }))
unfolding next next_from after_read ensure_terminated is_terminated next_iv is_zero
next-eof lib e dropped src s = elim (Bool-cases (ends_empty e.sd.blob_infos)) [
  | inl done ↦ rw done (refl, done, refl, refl)
  | inr open_end ↦
      let ((iv, ivs, random), drawn, (sized, _, _)) =
        Returns-value _ (next_iv_of e.ivs e.random) s in
      rw open_end (
        rw drawn (
          rw (add_blob_lem lib e.sd [] iv sized)
            (refl, ends_empty-append e.sd.blob_infos _, refl, refl)))
]
