-- ===== src/Stream/Decoding.antt =====
-- stream/stream.go: a source is encoded to a stream, from which the decoder returns it.
use lbry_go.Prelude.{
  ℕ, suc, ◌+◌, ◌-◌, ◌<◌, ◌≡◌, refl, ap, sym, ◌∙◌, true, false, List, [], ◌∷◌, ◌++◌, length,
  length-append, All, All-append, ◌==◌, map, ok, Returns, Returns-value, Returns-imp, Returns-bind,
  arith,
}
use mathlib.Core.Path.{subst}
use lbry_go.Bitmap.{IsByte}
use lbry_go.Messages.{Bytes}
use lbry_go.OrderedMap.Places.{key_eq_self}
use lbry_go.Blob.{Library}
use lbry_go.Blob.Padding.{IsLibrary}
use lbry_go.SdBlob.{
  SdBlob, BlobInfo, JsonLibrary, stream_type_lbry_file, is_valid, update_stream_hash,
  compute_stream_hash, stream_hash_of, to_blob, from_blob,
}
use lbry_go.SdBlob.Json.{IsInfo, IsSdBlob, IsJsonLibrary, from_blob-to_blob}
use lbry_go.Stream.{
  Encoder, ReadResult, is_zero, last_info, decode, decode_sd, decode_loop, stream, stream_loop,
  sd_blob, ends_empty,
}
use lbry_go.Stream.RoundTrip.{concat, Parts, Supplies, decode_loop_lem}
use lbry_go.Stream.Encoding.{read_ok, Encoded, stream_loop_lem}

last_info-append : (infos : List BlobInfo) (t : BlobInfo) → last_info (infos ++ t ∷ []) ≡ ok t
unfolding last_info
last_info-append [] t = refl
last_info-append (a ∷ []) t = refl
last_info-append (a ∷ b ∷ infos) t = last_info-append (b ∷ infos) t

module _ (lib : Library) where
  Parts-length :
      (key : Bytes) (i : ℕ) (infos : List BlobInfo) (blobs chunks : List Bytes)
      → Parts lib key i infos blobs chunks
      → length blobs ≡ length infos
  Parts-length key i [] [] [] p = refl
  Parts-length key i [] (b ∷ blobs) chunks p = absurd p
  Parts-length key i [] [] (c ∷ chunks) p = absurd p
  Parts-length key i (bi ∷ infos) [] chunks p = absurd p
  Parts-length key i (bi ∷ infos) (b ∷ blobs) [] p = absurd p
  Parts-length key i (bi ∷ infos) (b ∷ blobs) (c ∷ chunks) p =
      ap suc (Parts-length key (i + 1) infos blobs chunks p.1)

  Parts-IsInfo :
      (key : Bytes) (i : ℕ) (infos : List BlobInfo) (blobs chunks : List Bytes)
      → Parts lib key i infos blobs chunks
      → All IsInfo infos
  Parts-IsInfo key i [] blobs chunks p = tt
  Parts-IsInfo key i (bi ∷ infos) [] chunks p = absurd p
  Parts-IsInfo key i (bi ∷ infos) (b ∷ blobs) [] p = absurd p
  Parts-IsInfo key i (bi ∷ infos) (b ∷ blobs) (c ∷ chunks) p =
      (p.0.info_good, Parts-IsInfo key (i + 1) infos blobs chunks p.1)

  decode_sd_lem :
      (sd : SdBlob) (infos : List BlobInfo) (t : BlobInfo) (first : Bytes)
      (blobs chunks : List Bytes)
      → sd.blob_infos ≡ infos ++ t ∷ []
      → is_valid lib sd ≡ true
      → Parts lib sd.key 0 infos blobs chunks
      → is_zero t.size ≡ true
      → decode_sd lib sd (first ∷ blobs) ≡ ok (concat chunks)
  unfolding decode_sd
  decode_sd_lem sd infos t first blobs chunks e valid p z =
      let last : last_info sd.blob_infos ≡ ok t = ap last_info e ∙ last_info-append infos t in
      let size : length sd.blob_infos ≡ length infos + 1 =
        ap (λ (l : List BlobInfo). length l) e ∙ length-append infos (t ∷ []) in
      let same : (length (first ∷ blobs) - 1 == length sd.blob_infos - 1) ≡ true =
        ground (arith, size, Parts-length sd.key 0 infos blobs chunks p) in
      rw valid (
        rw last (
          rw z (
            rw same (
              ap (λ l. decode_loop lib sd.key (first ∷ blobs) (length sd.blob_infos) l 0 []) e
              ∙ decode_loop_lem lib sd.key infos t (first ∷ blobs) blobs chunks (first ∷ [])
                  (length sd.blob_infos) 0 [] p z refl (omega arith) (omega (arith, size))))))

  update_stream_hash-is_valid : (sd : SdBlob) → is_valid lib (update_stream_hash lib sd) ≡ true
  unfolding is_valid update_stream_hash compute_stream_hash
  update_stream_hash-is_valid sd = key_eq_self _

-- An encoder that has not read anything, whose texts are made of bytes, whose key is good, and that has
-- `n` chunks to read and an IV for each of them and for the end.
pub record IsReady (lib : Library) (e : Encoder) (chunks : List Bytes) : Type 0 where
  pub unused : e.sd.blob_infos ≡ []
  pub typed : e.sd.stream_type ≡ stream_type_lbry_file
  pub name_good : All IsByte e.sd.stream_name
  pub file_name_good : All IsByte e.sd.suggested_file_name
  pub key_good : All IsByte e.sd.key
  pub key_valid : lib.valid_key e.sd.key ≡ true
  pub reads : e.src ≡ map read_ok chunks
  pub ivs_good : Supplies (suc (length chunks)) e.ivs e.random
  pub full : All (λ c. 0 < length c) chunks

sd_good :
    (lib : Library) (sd sd' : SdBlob) (infos : List BlobInfo)
    → IsLibrary lib
    → All IsByte sd.stream_name × All IsByte sd.suggested_file_name × All IsByte sd.key
    → sd' ≡ record sd { blob_infos = infos }
    → All IsInfo infos
    → IsSdBlob (update_stream_hash lib sd')
unfolding update_stream_hash compute_stream_hash stream_hash_of
sd_good lib sd sd' infos h (name, file_name, key) e good = record {
  name_good = subst (λ (x : SdBlob). All IsByte x.stream_name) (sym e) name;
  file_name_good = subst (λ (x : SdBlob). All IsByte x.suggested_file_name) (sym e) file_name;
  key_good = subst (λ (x : SdBlob). All IsByte x.key) (sym e) key;
  hash_good = h.hash_good _;
  infos_good = subst (λ (x : SdBlob). All IsInfo x.blob_infos) (sym e) good;
}

ends_empty-fresh : (e : Encoder) → e.sd.blob_infos ≡ [] → ends_empty e.sd.blob_infos ≡ false
unfolding ends_empty
ends_empty-fresh e unused = ap ends_empty unused

length-reads : (chunks : List Bytes) → length (map read_ok chunks) ≡ length chunks
length-reads [] = refl
length-reads (c ∷ chunks) = ap suc (length-reads chunks)

module _ (lib : Library) (json : JsonLibrary) (h : IsLibrary lib) (j : IsJsonLibrary json) where
  decode_two :
      (first b : Bytes) (fresh : List Bytes) (sd : SdBlob)
      → from_blob lib json first ≡ ok sd
      → decode lib json (first ∷ b ∷ fresh) ≡ decode_sd lib sd (first ∷ b ∷ fresh)
  unfolding decode
  decode_two first b fresh sd e = rw e refl

  -- The descriptor's blob in front of the others.
  decode-Encoded :
      (e e' : Encoder) (out : List Bytes) (c : Bytes) (chunks : List Bytes)
      → IsReady lib e (c ∷ chunks)
      → Encoded lib h e [] (c ∷ chunks) (e', out)
      → Returns
          (λ first. decode lib json (first ∷ out) ≡ ok (concat (c ∷ chunks)))
          (to_blob lib json (sd_blob lib e').sd)
  unfolding sd_blob update_stream_hash
  decode-Encoded e e' out c chunks ready (infos, t, [], sd, written, parts, z, good) =
      absurd (no_blobs infos parts)
    where
      no_blobs :
          (infos : List BlobInfo)
          → Parts lib e.sd.key (length e.sd.blob_infos) infos [] (c ∷ chunks)
          → ⊥
      no_blobs [] p = p
      no_blobs (bi ∷ infos) p = p
  decode-Encoded e e' out c chunks ready (infos, t, b ∷ fresh, sd, written, parts, z, good) =
      let sd₁ = update_stream_hash lib e'.sd in
      let first_parts : Parts lib e.sd.key 0 infos (b ∷ fresh) (c ∷ chunks) =
        subst (λ (l : List BlobInfo). Parts lib e.sd.key (length l) infos (b ∷ fresh) (c ∷ chunks))
          ready.unused parts in
      let sd' : e'.sd ≡ record e.sd { blob_infos = infos ++ t ∷ [] } =
        sd
        ∙ ap (λ (l : List BlobInfo). record e.sd { blob_infos = l ++ (infos ++ t ∷ []) })
            ready.unused in
      let all_good =
        All-append IsInfo infos (t ∷ [])
          (Parts-IsInfo lib e.sd.key 0 infos (b ∷ fresh) (c ∷ chunks) first_parts) (good, tt) in
      let ready_sd =
        sd_good lib e.sd e'.sd (infos ++ t ∷ []) h
          (ready.name_good, ready.file_name_good, ready.key_good) sd' all_good in
      Returns-imp (λ first. from_blob lib json first ≡ ok sd₁) _ (to_blob lib json sd₁)
        (λ first read.
          ap (λ l. decode lib json (first ∷ l)) written
          ∙ decode_two (first) b fresh sd₁ read
          ∙ decode_sd_lem lib sd₁ infos t first (b ∷ fresh) (c ∷ chunks)
              (ap (λ (x : SdBlob). x.blob_infos) sd') (update_stream_hash-is_valid lib e'.sd)
              (subst (λ k. Parts lib k 0 infos (b ∷ fresh) (c ∷ chunks))
                (sym (ap (λ (x : SdBlob). x.key) sd')) first_parts)
              z)
        (from_blob-to_blob lib json sd₁ h j ready_sd
          (ap (λ (x : SdBlob). x.stream_type) sd' ∙ ready.typed))

-- From libraries that behave as documented, for any source that Read returns in one or more non-empty
-- chunks, a valid key and an IV of one block for each chunk and for the end, Encoder.Stream returns a
-- stream, and Decode returns the source.
pub decode-stream :
    (lib : Library) (json : JsonLibrary) (e : Encoder) (c : Bytes) (chunks : List Bytes)
    → IsLibrary lib
    → IsJsonLibrary json
    → IsReady lib e (c ∷ chunks)
    → Returns (λ r. decode lib json r.1 ≡ ok (concat (c ∷ chunks))) (stream lib json e)
unfolding stream
decode-stream lib json e c chunks h j ready =
    let open_end : ends_empty e.sd.blob_infos ≡ false = ends_empty-fresh e ready.unused in
    let fuel : length (c ∷ chunks) < suc (length e.src) =
      omega
        (arith, ap (λ (l : List ReadResult). length l) ready.reads, length-reads (c ∷ chunks)) in
    let ((e', out), encoded, (infos, t, fresh, sd, written, parts, z, good)) =
      Returns-value (Encoded lib h e [] (c ∷ chunks)) (stream_loop lib (suc (length e.src)) e []) (
        stream_loop_lem lib h (c ∷ chunks) e [] (suc (length e.src)) fuel ready.reads open_end
          ready.key_valid ready.ivs_good ready.full) in
    rw encoded (
      Returns-bind _ _ (to_blob lib json (sd_blob lib e').sd) _
        (decode-Encoded lib json h j e e' out c chunks ready
          (infos, t, fresh, sd, written, parts, z, good))
        (λ first p. p))
