-- ===== src/Tests/Address.antt =====
-- User-friendly addresses (crates/ton-connect-core/src/friendly_address.rs) at concrete engines.
use wallet_engine.Base.Bytes.{IsBytes}
use wallet_engine.Base.{
  ℕ, zero, suc, ◌+◌, ◌-◌, ◌%◌, ◌<◌, ◌≡◌, refl, arith, true, false, not, ◌==◌, some, List, [], ◌∷◌,
  map, length, all_of, inr, ap, ◌++◌, Option, none, leb, if◌then◌else◌, Bool, subst,
}
use wallet_engine.Base.Results.{ok}
use wallet_engine.Address.{
  negsuc, RawAccountAddress, FriendlyAddress, Base64, from_raw, try_from, from_bytes,
  tag_bounceable, tag_test_only, is_known, i8_from_byte,
}
use wallet_engine.Types.Texts.{Text}
use wallet_engine.Cell.Reader.{get_range}
use wallet_engine.Address.Canonical.{IsCanonical, and_split, try_from-IsCanonical}
use wallet_engine.Address.RoundTrip.{IsBase64, try_from-from_raw}

-- An engine that writes one character for a byte.
abbrev shift : Base64
shift = record { encode = map (λ b. b + 62); decode = λ s. some (map (λ c. c - 62) s) }

abbrev count : List ℕ → ℕ
count bs = length bs % 65536

count-small : (bs : List ℕ) → count bs < 65536
count-small bs = omega arith

map-back : (bs : List ℕ) → map (λ c. c - 62) (map (λ b. b + 62) bs) ≡ bs
map-back [] = refl
map-back (b ∷ bs) = let same : b + 62 - 62 ≡ b = omega arith in rw (same, map-back bs)

not_padding : (b : ℕ) → (b + 62 == 61) ≡ false
not_padding b = ground arith

shift-unpadded : (bs : List ℕ) → all_of (λ c. not (c == 61)) (map (λ b. b + 62) bs) ≡ true
shift-unpadded [] = refl
shift-unpadded (b ∷ bs) = rw (not_padding b, shift-unpadded bs)

shift-IsBase64 : IsBase64 shift
shift-IsBase64 = record {
  decode-encode = λ bs _. ap some (map-back bs);
  unpadded = λ bs _. shift-unpadded bs;
}

abbrev sevens : ℕ → List ℕ
sevens zero = []
sevens (suc n) = 7 ∷ sevens n

sevens-IsBytes : (n : ℕ) → IsBytes (sevens n)
sevens-IsBytes zero = tt
sevens-IsBytes (suc n) = (omega arith, sevens-IsBytes n)

abbrev masterchain : RawAccountAddress
masterchain = record { workchain = negsuc 0; hash = sevens 32 }

try_from-from_raw_example :
    (address : FriendlyAddress) × (from_raw shift count masterchain false true ≡ ok address)
    × (try_from shift count address.encoded ≡ ok address)
    × (address.raw ≡ masterchain)
    × (address.bounceable ≡ false)
    × (address.test_only ≡ true)
try_from-from_raw_example =
    try_from-from_raw shift shift-IsBase64 count count-small masterchain refl (sevens-IsBytes 32)
      (inr refl) false true

-- A text, and an engine that decodes only what stands for bytes.
abbrev text : Text
text = shift.encode (0xd1 ∷ 255 ∷ sevens 32 ++ (0 ∷ 34 ∷ []))

abbrev of_bytes : Text → Option (List ℕ)
of_bytes s = if all_of (λ c. leb c 317) s then some (map (λ c. c - 62) s) else none

abbrev checked : Base64
checked = record { encode = shift.encode; decode = of_bytes }

back-IsBytes : (s : Text) → all_of (λ c. leb c 317) s ≡ true → IsBytes (map (λ c. c - 62) s)
back-IsBytes [] h = tt
back-IsBytes (c ∷ s) h =
    let (first, rest) = and_split (leb c 317) (all_of (λ c. leb c 317) s) h in
    (ground arith, back-IsBytes s rest)

if_some :
    (t : Bool) (xs bs : List ℕ) → (if t then some xs else none) ≡ some bs → (t ≡ true) × (xs ≡ bs)
if_some true xs bs h = (refl, cc)
if_some false xs bs h = absurd cc

checked-IsBytes : (s : Text) (bs : List ℕ) → checked.decode s ≡ some bs → IsBytes bs
checked-IsBytes s bs h =
    let (small, same) = if_some (all_of (λ c. leb c 317) s) (map (λ c. c - 62) s) bs h in
    subst IsBytes same (back-IsBytes s small)

abbrev read_back : FriendlyAddress
read_back = record { encoded = text; raw = masterchain; bounceable = false; test_only = true }

text-read : try_from checked count text ≡ ok read_back
unfolding try_from from_bytes tag_bounceable tag_test_only is_known i8_from_byte get_range
text-read = refl

try_from-IsCanonical_example : IsCanonical checked count text read_back
try_from-IsCanonical_example =
    try_from-IsCanonical checked count text read_back checked-IsBytes text-read
