-- ===== src/Stream/Encoding.antt =====
-- stream/stream.go: what the encoder makes of the chunks that its reader returns.
use lbry_go.Prelude.{
  ℕ, zero, suc, ◌<◌, ◌≡◌, refl, ap, sym, ◌∙◌, true, false, List, [], ◌∷◌, ◌++◌, length,
  length-append, All, none, ◌==◌, map, ok, ◌>>=◌, Returns, Returns-value, Returns-bind, Returns-imp,
  arith, Bool-cases, inl, inr,
}
use mathlib.Core.Path.{subst}
use mathlib.Core.List.{append_assoc, append-nil}
use lbry_go.Prelude.Int.{pos}
use lbry_go.Bitmap.{IsByte}
use lbry_go.Messages.{Bytes}
use lbry_go.OrderedMap.Places.{key_eq_self}
use lbry_go.Blob
use lbry_go.Blob.{Library, block_size, max_blob_size, new_blob, plaintext}
use lbry_go.Blob.Padding.{IsLibrary, plaintext-new_blob}
use lbry_go.SdBlob.{SdBlob, BlobInfo}
use lbry_go.SdBlob.Json.{IsInfo}
use lbry_go.Stream.{
  Encoder, ReadResult, NextResult, made, stopped, eof, is_zero, is_num, ends_empty, next_iv_of,
  next_iv, ensure_terminated, is_terminated, encode_next, after_read, next_from, next, stream_loop,
}
use lbry_go.Stream.RoundTrip.{Part, Parts, Supplies, ends_empty-append, add_blob_lem}

-- A call of Read that returns bytes and no error.
abbrev pub read_ok : Bytes → ReadResult
read_ok c = record { bytes = c; error = none }

abbrev new_info : Library → SdBlob → Bytes → Bytes → BlobInfo
new_info lib sd b iv = record {
  size = pos (length b);
  blob_num = pos (length sd.blob_infos);
  blob_hash = Blob.hash lib b;
  iv = iv;
}

abbrev with_info : SdBlob → BlobInfo → SdBlob
with_info sd bi = record sd { blob_infos = sd.blob_infos ++ bi ∷ [] }

hash-IsByte : (lib : Library) (b : Bytes) → IsLibrary lib → All IsByte (Blob.hash lib b)
unfolding Blob.hash
hash-IsByte lib b h = elim (Bool-cases (length b == 0)) [
  | inl empty ↦ rw empty tt
  | inr some_bytes ↦ rw some_bytes (h.hash_good b)
]

-- What Next has made of the chunk `c`.
abbrev IsNext : Library → ℕ → Encoder → Bytes → Encoder × NextResult → Type 0
IsNext lib n e c (e', result) =
    (bi : BlobInfo) × (b : Bytes) × (result ≡ made b)
    × (e'.sd ≡ with_info e.sd bi)
    × Part lib e.sd.key (length e.sd.blob_infos) bi b c
    × Supplies n e'.ivs e'.random
    × (e'.src ≡ e.src)

module _ (lib : Library) (h : IsLibrary lib) where
  encode_next_lem :
      (n : ℕ) (e : Encoder) (c : Bytes)
      → lib.valid_key e.sd.key ≡ true
      → Supplies (suc n) e.ivs e.random
      → 0 < length c
      → Returns (IsNext lib n e c) (encode_next lib e c)
  unfolding encode_next next_iv is_zero is_num
  encode_next_lem n e c key s some_bytes =
      let ((iv, ivs, random), drawn, (sized, iv_bytes, more)) =
        Returns-value _ (next_iv_of e.ivs e.random) s in
      let (b, sealed, (back, longer, _, _)) =
        Returns-value _ (new_blob lib c e.sd.key iv)
          (plaintext-new_blob lib e.sd.key iv c h key sized some_bytes) in
      rw drawn (
        rw sealed (
          rw (add_blob_lem lib e.sd b iv sized) (
            new_info lib e.sd b iv,
            b,
            refl,
            refl,
            record {
              decrypts = back;
              some_bytes = ground arith;
              numbered = ground arith;
              hashed = key_eq_self (Blob.hash lib b);
              info_good = (hash-IsByte lib b h, iv_bytes);
            },
            more,
            refl,
          )))

  -- What the loop has made of the chunks that the reader had left.
  abbrev pub Encoded : Encoder → List Bytes → List Bytes → Encoder × List Bytes → Type 0
  Encoded e blobs chunks (e', out) =
      (infos : List BlobInfo) × (t : BlobInfo) × (fresh : List Bytes) × (e'.sd
        ≡ record e.sd { blob_infos = e.sd.blob_infos ++ (infos ++ t ∷ []) })
      × (out ≡ blobs ++ fresh)
      × Parts lib e.sd.key (length e.sd.blob_infos) infos fresh chunks
      × (is_zero t.size ≡ true)
      × IsInfo t

  -- One chunk, and those after it.
  one_more :
      (e e' : Encoder) (blobs : List Bytes) (c : Bytes) (chunks : List Bytes) (bi : BlobInfo)
      (b : Bytes)
      → e'.sd ≡ with_info e.sd bi
      → Part lib e.sd.key (length e.sd.blob_infos) bi b c
      → (r : Encoder × List Bytes) → Encoded e' (blobs ++ b ∷ []) chunks r
      → Encoded e blobs (c ∷ chunks) r
  one_more e e' blobs c chunks bi b sd part (e'', out)
        (infos, t, fresh, sd', written, parts, z, good) =
      (
        bi ∷ infos,
        t,
        b ∷ fresh,
        sd'
            ∙ ap (λ (x : SdBlob). record x { blob_infos = x.blob_infos ++ (infos ++ t ∷ []) }) sd
            ∙ ap (λ (l : List BlobInfo). record e.sd { blob_infos = l })
                (append_assoc e.sd.blob_infos (bi ∷ []) (infos ++ t ∷ [])),
        written ∙ append_assoc blobs (b ∷ []) fresh,
        (
          part,
          subst (λ n. Parts lib e.sd.key n infos fresh chunks)
              (length-append e.sd.blob_infos (bi ∷ []))
              (subst (λ (x : SdBlob). Parts lib x.key (length x.blob_infos) infos fresh chunks) sd
                parts),
        ),
        z,
        good,
      )

  -- What the end of the source makes of the descriptor.
  abbrev IsEnd : Encoder → Encoder → Type 0
  IsEnd e e' = (t : BlobInfo) × (e'.sd ≡ with_info e.sd t) × (is_zero t.size ≡ true) × IsInfo t

  ensure_terminated_lem :
      (e : Encoder)
      → ends_empty e.sd.blob_infos ≡ false
      → Supplies 1 e.ivs e.random
      → Returns (IsEnd e) (ensure_terminated lib e)
  unfolding ensure_terminated is_terminated next_iv is_zero
  ensure_terminated_lem e open_end s =
      let ((iv, ivs, random), drawn, (sized, iv_bytes, _)) =
        Returns-value _ (next_iv_of e.ivs e.random) s in
      rw open_end (
        rw drawn (
          rw (add_blob_lem lib e.sd [] iv sized)
            (new_info lib e.sd [] iv, refl, refl, (hash-IsByte lib [] h, iv_bytes))))

  next_end :
      (e : Encoder)
      → e.src ≡ []
      → next lib e ≡ (ensure_terminated lib e >>= λ e'. ok (e', stopped eof))
  unfolding next next_from after_read
  next_end e src = ap (next_from lib e) src

  next_chunk :
      (e : Encoder) (c : Bytes) (src : List ReadResult)
      → e.src ≡ read_ok c ∷ src
      → next lib e ≡ encode_next lib (record e { src = src }) c
  unfolding next next_from after_read
  next_chunk e c src e_src = ap (next_from lib e) e_src

  pub stream_loop_lem :
      (chunks : List Bytes) (e : Encoder) (blobs : List Bytes) (fuel : ℕ)
      → length chunks < fuel
      → e.src ≡ map read_ok chunks
      → ends_empty e.sd.blob_infos ≡ false
      → lib.valid_key e.sd.key ≡ true
      → Supplies (suc (length chunks)) e.ivs e.random
      → All (λ c. 0 < length c) chunks
      → Returns (Encoded e blobs chunks) (stream_loop lib fuel e blobs)
  unfolding stream_loop
  stream_loop_lem chunks e blobs zero f src open_end key s nonempty = absurd (omega arith)
  stream_loop_lem [] e blobs (suc fuel) f src open_end key s nonempty =
      let (e', ended, (t, sd, empty, good)) =
        Returns-value _ (ensure_terminated lib e) (ensure_terminated_lem e open_end s) in
      rw (next_end e src) (rw ended ([], t, [], sd, sym (append-nil blobs), tt, empty, good))
  stream_loop_lem (c ∷ chunks) e blobs (suc fuel) f src open_end key s nonempty =
      let e₀ : Encoder = record e { src = map read_ok chunks } in
      rw (next_chunk e c (map read_ok chunks) src) (
        Returns-bind (IsNext lib (suc (length chunks)) e₀ c) (Encoded e blobs (c ∷ chunks))
          (encode_next lib e₀ c) _ (encode_next_lem (suc (length chunks)) e₀ c key s nonempty.0)
          (λ (e', result) (bi, b, is_made, sd, part, more, left).
            let all =
              stream_loop_lem chunks e' (blobs ++ b ∷ []) fuel (omega arith) left
                (ap (λ (x : SdBlob). ends_empty x.blob_infos) sd
                  ∙ ends_empty-append e.sd.blob_infos bi
                  ∙ part.some_bytes)
                (ap (λ (x : SdBlob). lib.valid_key x.key) sd ∙ key) more nonempty.1 in
            rw is_made (
              Returns-imp (Encoded e' (blobs ++ b ∷ []) chunks) (Encoded e blobs (c ∷ chunks)) _
                (λ r. one_more e e' blobs c chunks bi b sd part r) all)))
