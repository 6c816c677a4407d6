-- ===== src/Stream/RoundTrip.antt =====
-- stream/stream.go: what the encoder makes of a source, and what the decoder makes of that.
use lbry_go.Prelude.{
  ℕ, zero, suc, ◌+◌, ◌-◌, ◌≡◌, refl, ap, sym, ◌∙◌, true, false, List, [], ◌∷◌, ◌++◌, length,
  length-append, get_elem?, get-middle, All, Option, some, ◌==◌, ok, Returns, arith,
}
use mathlib.Core.List.{append_assoc, append-nil}
use lbry_go.Prelude.Int.{pos}
use lbry_go.Bitmap.{IsByte}
use lbry_go.Messages.{Bytes}
use lbry_go.OrderedMap.{key_eq}
use lbry_go.Blob
use lbry_go.Blob.{Library, block_size, max_blob_size, new_blob, plaintext}
use lbry_go.SdBlob.{SdBlob, BlobInfo, add_blob}
use lbry_go.SdBlob.Json.{IsInfo}
use lbry_go.Stream.{is_zero, is_num, ends_empty, next_iv_of, decode_loop, decode_blob}

abbrev pub concat : List Bytes → Bytes
concat [] = []
concat (c ∷ l) = c ++ concat l

-- The info of the i-th blob, for the bytes `c`.
pub record Part (lib : Library) (key : Bytes) (i : ℕ) (bi : BlobInfo) (b c : Bytes) : Type 0 where
  pub decrypts : plaintext lib b key bi.iv ≡ ok c
  pub some_bytes : is_zero bi.size ≡ false
  pub numbered : is_num bi.blob_num i ≡ true
  pub hashed : key_eq (Blob.hash lib b) bi.blob_hash ≡ true
  pub info_good : IsInfo bi

abbrev pub Parts : Library → Bytes → ℕ → List BlobInfo → List Bytes → List Bytes → Type 0
Parts lib key i [] [] [] = Unit
Parts lib key i (bi ∷ infos) (b ∷ blobs) (c ∷ chunks) =
    Part lib key i bi b c × Parts lib key (i + 1) infos blobs chunks
Parts lib key i _ _ _ = ⊥

module _ (lib : Library) (key : Bytes) where
  decode_blob_lem :
      (i : ℕ) (bi : BlobInfo) (b c : Bytes)
      → Part lib key i bi b c
      → decode_blob lib key (some b) bi ≡ ok c
  unfolding decode_blob
  decode_blob_lem i bi b c p = rw p.hashed p.decrypts

  -- From the i-th blob on, with the blobs of the stream before it.
  pub decode_loop_lem :
      (infos : List BlobInfo) (t : BlobInfo) (s blobs chunks before : List Bytes) (count i : ℕ)
      (file : Bytes)
      → Parts lib key i infos blobs chunks
      → is_zero t.size ≡ true
      → s ≡ before ++ blobs
      → length before ≡ i + 1
      → count ≡ i + length infos + 1
      → decode_loop lib key s count (infos ++ t ∷ []) i file ≡ ok (file ++ concat chunks)
  unfolding decode_loop
  decode_loop_lem [] t s [] [] before count i file p z es e n =
      let last : (i == count - 1) ≡ true = ground (arith, n) in
      rw z (rw last (ap ok (sym (append-nil file))))
  decode_loop_lem [] t s (b ∷ blobs) chunks before count i file p z es e n = absurd p
  decode_loop_lem [] t s [] (c ∷ chunks) before count i file p z es e n = absurd p
  decode_loop_lem (bi ∷ infos) t s [] chunks before count i file p z es e n = absurd p
  decode_loop_lem (bi ∷ infos) t s (b ∷ blobs) [] before count i file p z es e n = absurd p
  decode_loop_lem (bi ∷ infos) t s (b ∷ blobs) (c ∷ chunks) before count i file p z es e n =
      let found : get_elem? s (i + 1) ≡ some b =
        ap (λ l. get_elem? l (i + 1)) es ∙ get-middle before b blobs (i + 1) (omega (arith, e)) in
      let rest =
        decode_loop_lem infos t s blobs chunks (before ++ b ∷ []) count (i + 1) (file ++ c) p.1 z
          (es ∙ sym (append_assoc before (b ∷ []) blobs))
          (omega (arith, length-append before (b ∷ []), e)) (omega (arith, n)) in
      rw p.0.some_bytes (
        rw p.0.numbered (
          rw found (
            rw (decode_blob_lem i bi b c p.0)
              (rest ∙ ap ok (append_assoc file c (concat chunks))))))

-- `n` more IVs, preset or random, of one block each.
abbrev pub Supplies : ℕ → List Bytes → List (Option Bytes) → Type 0
Supplies zero ivs random = Unit
Supplies (suc n) ivs random =
    Returns
      (λ (iv, ivs', random'). (length iv ≡ block_size) × All IsByte iv × Supplies n ivs' random')
      (next_iv_of ivs random)

pub ends_empty-append :
    (infos : List BlobInfo) (bi : BlobInfo) → ends_empty (infos ++ bi ∷ []) ≡ is_zero bi.size
unfolding ends_empty
ends_empty-append [] bi = refl
ends_empty-append (a ∷ []) bi = refl
ends_empty-append (a ∷ b ∷ infos) bi = ends_empty-append (b ∷ infos) bi

pub add_blob_lem :
    (lib : Library) (sd : SdBlob) (b iv : Bytes)
    → length iv ≡ block_size
    → add_blob lib sd b iv
      ≡ ok (record sd {
        blob_infos =
            sd.blob_infos
            ++ record {
              size = pos (length b);
              blob_num = pos (length sd.blob_infos);
              blob_hash = Blob.hash lib b;
              iv = iv;
            }
              ∷ [];
      })
unfolding add_blob
add_blob_lem lib sd b iv e =
    let some_iv : (length iv == 0) ≡ false = ground (arith, e) in rw some_iv refl
