-- ===== src/ContentDigest.antt =====
-- `ContentDigest` of src/cedar/engine.rs. SHA-256 is a parameter; what is modelled is the byte
-- stream that is fed to it, and the hexadecimal text.
use native.Mathlib.Nat.{pow-suc}
use nono_cedar_pdp.Base.{
  ℕ, zero, suc, ◌/◌, ◌%◌, ◌^◌, ◌<◌, ◌≡◌, ◌≢◌, append-nil, refl, ◌∙◌, sym, List, [], ◌∷◌, ◌++◌,
  append_assoc, arith, Text, Bytes, length, lit, All,
}
use nono_cedar_pdp.Sanitize.{hex_digit}

-- `to_le_bytes`, `n` bytes of a number.
unfoldable pub to_le_bytes : ℕ → ℕ → Bytes
to_le_bytes zero v = []
to_le_bytes (suc n) v = (v % 256) ∷ to_le_bytes n (v / 256)

-- `(… as u64).to_le_bytes()`
abbrev pub u64_bytes : ℕ → Bytes
u64_bytes v = to_le_bytes 8 (v % 2 ^ 64)

-- `ContentDigest::file`: what the hash state has been fed, then the file's name and contents.
unfoldable pub file : Bytes → Bytes → Bytes → Bytes
file fed name contents =
    fed ++ (u64_bytes (length name) ++ (name ++ (u64_bytes (length contents) ++ contents)))

unfoldable pub hex : Bytes → Text
hex [] = []
hex (b ∷ bs) = hex_digit (b / 16) ∷ hex_digit (b % 16) ∷ hex bs

-- `ContentDigest::finish`
unfoldable pub finish : (Bytes → Bytes) → Bytes → Text
finish sha256 fed = lit "sha256:" ++ hex (sha256 fed)

-- What a load feeds: each file's name and contents in order.
unfoldable pub fed_from : Bytes → List (Bytes × Bytes) → Bytes
unfolding file
fed_from fed [] = fed
fed_from fed ((name, contents) ∷ files) = fed_from (file fed name contents) files

-- A name and a content whose lengths fit in 64 bits.
abbrev pub Small : Bytes × Bytes → Type 0
Small f = (length f.0 < 2 ^ 64) × (length f.1 < 2 ^ 64)

to_le_bytes-injective :
    (n v w : ℕ) (a b : Bytes)
    → v < 256 ^ n
    → w < 256 ^ n
    → to_le_bytes n v ++ a ≡ to_le_bytes n w ++ b
    → (v ≡ w) × (a ≡ b)
unfolding to_le_bytes
to_le_bytes-injective zero v w a b hv hw e = (omega arith, e)
to_le_bytes-injective (suc n) v w a b hv hw e =
    let low : v % 256 ≡ w % 256 = ground arith in
    let rest : to_le_bytes n (v / 256) ++ a ≡ to_le_bytes n (w / 256) ++ b = ground arith in
    let (q, r) =
      to_le_bytes-injective n (v / 256) (w / 256) a b (omega (arith, pow-suc 256 n))
        (omega (arith, pow-suc 256 n)) rest in
    (omega arith, r)

append-injective :
    (xs ys a b : Bytes) → length xs ≡ length ys → xs ++ a ≡ ys ++ b → (xs ≡ ys) × (a ≡ b)
append-injective [] [] a b h e = (refl, e)
append-injective [] (y ∷ ys) a b h e = absurd (omega arith)
append-injective (x ∷ xs) [] a b h e = absurd (omega arith)
append-injective (x ∷ xs) (y ∷ ys) a b h e = ground (arith, append-injective xs ys a b)

u64_bytes-injective :
    (v w : ℕ) (a b : Bytes)
    → v < 2 ^ 64
    → w < 2 ^ 64
    → u64_bytes v ++ a ≡ u64_bytes w ++ b
    → (v ≡ w) × (a ≡ b)
u64_bytes-injective v w a b hv hw e =
    let (q, r) =
      to_le_bytes-injective 8 (v % 2 ^ 64) (w % 2 ^ 64) a b (omega arith) (omega arith) e in
    (omega arith, r)

-- One length-prefixed field is read back with what follows it.
field-injective :
    (x y a b : Bytes)
    → length x < 2 ^ 64
    → length y < 2 ^ 64
    → u64_bytes (length x) ++ (x ++ a) ≡ u64_bytes (length y) ++ (y ++ b)
    → (x ≡ y) × (a ≡ b)
field-injective x y a b hx hy e =
    let (l, r) = u64_bytes-injective (length x) (length y) (x ++ a) (y ++ b) hx hy e in
    append-injective x y a b l r

-- The stream of a list of files, with nothing in front.
abbrev stream : List (Bytes × Bytes) → Bytes
stream [] = []
stream ((name, contents) ∷ files) =
    u64_bytes (length name) ++ (name ++ (u64_bytes (length contents) ++ (contents ++ stream files)))

fed_from-stream :
    (fed : Bytes) (files : List (Bytes × Bytes)) → fed_from fed files ≡ fed ++ stream files
unfolding fed_from
fed_from-stream fed [] = sym (append-nil fed)
fed_from-stream fed ((name, contents) ∷ files) =
    fed_from-stream (file fed name contents) files ∙ (unfold file in simp append_assoc)

stream_cons-ne_nil :
    (name contents : Bytes) (files : List (Bytes × Bytes)) → [] ≢ stream ((name, contents) ∷ files)
unfolding to_le_bytes
stream_cons-ne_nil name contents files e = cc

stream-injective :
    (fs gs : List (Bytes × Bytes)) → All Small fs → All Small gs → stream fs ≡ stream gs → fs ≡ gs
stream-injective [] [] hf hg e = refl
stream-injective [] ((n, c) ∷ gs) hf hg e = absurd (stream_cons-ne_nil n c gs e)
stream-injective ((n, c) ∷ fs) [] hf hg e = absurd (stream_cons-ne_nil n c fs (sym e))
stream-injective ((n, c) ∷ fs) ((m, d) ∷ gs) hf hg e =
    let (p, r) = field-injective n m _ _ hf.0.0 hg.0.0 e in
    let (q, t) = field-injective c d (stream fs) (stream gs) hf.0.1 hg.0.1 r in
    let u = stream-injective fs gs hf.1 hg.1 t in λ i. (p i, q i) ∷ u i

-- Two loads that feed the hash the same bytes read the same files: the same names, the same
-- contents, in the same order. No policy set can stand in for another by moving bytes between a
-- name, a content and the next file, as long as each length fits in 64 bits.
pub fed_from-injective :
    (fs gs : List (Bytes × Bytes))
    → All Small fs
    → All Small gs
    → fed_from [] fs ≡ fed_from [] gs
    → fs ≡ gs
fed_from-injective fs gs hf hg e =
    stream-injective fs gs hf hg (sym (fed_from-stream [] fs) ∙ e ∙ fed_from-stream [] gs)
