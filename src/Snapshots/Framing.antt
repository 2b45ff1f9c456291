-- ===== src/Snapshots/Framing.antt =====
-- Proofs on the bytes that `_fixture_content_digest` hashes.
use Prim.Native.String.{◌++◌ as ◌<>◌, String}
use Prim.Native.String.append
use Prim.Native.Nat.{◌/◌, ◌%◌, ◌^◌}
use pan_agent.Base.{ℕ, ◌<◌, ◌≡◌, ◌≢◌, refl, sym, ◌∙◌, List, [], ◌∷◌, ◌++◌, arith, length, All}
use pan_agent.Base.Text.{Text}
use pan_agent.Snapshots.{Bytes, Contents, to_bytes, framed, sort_files, fixture_content_digest}

-- Lists that start alike are equal part by part, if their first parts are as long.
append-injective :
    {A : Type 0} (a b c d : List A) → length a ≡ length b → a ++ c ≡ b ++ d → (a ≡ b) × (c ≡ d)
append-injective [] [] c d same e = (refl, e)
append-injective [] (y ∷ b) c d same e = absurd (omega (arith, same))
append-injective (x ∷ a) [] c d same e = absurd (omega (arith, same))
append-injective (x ∷ a) (y ∷ b) c d same e =
    let tail : a ++ c ≡ b ++ d = cc in
    let (first, rest) = append-injective a b c d (omega (arith, same)) tail in (cc, rest)

to_bytes-injective : (m n : ℕ) → m < 2 ^ 64 → n < 2 ^ 64 → to_bytes m ≡ to_bytes n → m ≡ n
unfolding to_bytes
to_bytes-injective m n small small' e =
    let e0 : m / 2 ^ 56 % 256 ≡ n / 2 ^ 56 % 256 = cc in
    let e1 : m / 2 ^ 48 % 256 ≡ n / 2 ^ 48 % 256 = cc in
    let e2 : m / 2 ^ 40 % 256 ≡ n / 2 ^ 40 % 256 = cc in
    let e3 : m / 2 ^ 32 % 256 ≡ n / 2 ^ 32 % 256 = cc in
    let e4 : m / 2 ^ 24 % 256 ≡ n / 2 ^ 24 % 256 = cc in
    let e5 : m / 2 ^ 16 % 256 ≡ n / 2 ^ 16 % 256 = cc in
    let e6 : m / 2 ^ 8 % 256 ≡ n / 2 ^ 8 % 256 = cc in
    let e7 : m % 256 ≡ n % 256 = cc in omega arith

-- Lengths that fit into eight bytes
abbrev pub IsFramable : (Text → Bytes) → Contents → Type 0
IsFramable encode = All (λ file. (length (encode file.0) < 2 ^ 64) × (length file.1 < 2 ^ 64))

length-to_bytes : (m n : ℕ) → length (to_bytes m) ≡ length (to_bytes n)
unfolding to_bytes
length-to_bytes m n = refl

-- A length and as many bytes determine the bytes.
framed_part :
    (a b c d : Bytes)
    → length a < 2 ^ 64
    → length b < 2 ^ 64
    → to_bytes (length a) ++ (a ++ c) ≡ to_bytes (length b) ++ (b ++ d)
    → (a ≡ b) × (c ≡ d)
framed_part a b c d small small' e =
    let (heads, tails) =
      append-injective (to_bytes (length a)) (to_bytes (length b)) (a ++ c) (b ++ d)
        (length-to_bytes (length a) (length b)) e in
    append-injective a b c d (to_bytes-injective (length a) (length b) small small' heads) tails

framed-cons :
    (encode : Text → Bytes) (path : Text) (content : Bytes) (files : Contents)
    → [] ≢ framed encode ((path, content) ∷ files)
unfolding framed to_bytes
framed-cons encode path content files e = cc

framed-injective :
    (encode : Text → Bytes)
    → ((s t : Text) → encode s ≡ encode t → s ≡ t)
    → (files others : Contents) → IsFramable encode files
    → IsFramable encode others
    → framed encode files ≡ framed encode others
    → files ≡ others
unfolding framed
framed-injective encode injective [] [] small small' e = refl
framed-injective encode injective [] ((path, content) ∷ others) small small' e =
    absurd (framed-cons encode path content others e)
framed-injective encode injective ((path, content) ∷ files) [] small small' e =
    absurd (framed-cons encode path content files (sym e))
framed-injective encode injective ((path, content) ∷ files) ((path', content') ∷ others)
      ((small1, small2), small) ((small1', small2'), small') e =
    let (paths, rest) = framed_part (encode path) (encode path') _ _ small1 small1' e in
    let (contents, rest') = framed_part content content' _ _ small2 small2' rest in
    let same_path = injective path path' paths in
    let same_files = framed-injective encode injective files others small small' rest' in cc

-- Texts that start alike and are equal go on alike.
prefix-injective : (p s t : String) → p <> s ≡ p <> t → s ≡ t
prefix-injective String.[] s t e = sym (append.nil s) ∙ e ∙ append.nil t
prefix-injective (String.◌∷◌ c p) s t e =
    let tail : p <> s ≡ p <> t = cc (append.cons c p s, append.cons c p t) in
    prefix-injective p s t tail

-- Two collections of files with the same digest hold the same files with the same contents, in the
-- order of their paths: the paths and contents are framed by their lengths, so that no other
-- division of the same bytes gives the digest. This takes that the hash does not collide on the
-- two inputs, that encoding is injective, and that all lengths fit into eight bytes.
pub fixture_content_digest-injective :
    (hexdigest : Bytes → String) (encode : Text → Bytes) (files others : Contents)
    → ((s t : Text) → encode s ≡ encode t → s ≡ t)
    → (hexdigest (framed encode (sort_files files)) ≡ hexdigest (framed encode (sort_files others))
        → framed encode (sort_files files) ≡ framed encode (sort_files others))
    → IsFramable encode (sort_files files)
    → IsFramable encode (sort_files others)
    → fixture_content_digest hexdigest encode files ≡ fixture_content_digest hexdigest encode others
    → sort_files files ≡ sort_files others
unfolding fixture_content_digest
fixture_content_digest-injective hexdigest encode files others injective collision_free small small'
      e =
    framed-injective encode injective (sort_files files) (sort_files others) small small'
      (collision_free (prefix-injective "sha256:" _ _ e))
