-- ===== src/Family/Media.antt =====
-- `validateFamilyMedia` (backend/internal/domain/family.go): data URLs, their base64 payload as Go's
-- `base64.StdEncoding` decodes it, and the signatures of the formats.
use family_quest.Base.{
  ℕ, ◌+◌, ◌-◌, ◌*◌, ◌/◌, ◌%◌, ◌≡◌, refl, Bool, true, false, not, ◌&&◌, ◌||◌, List, [], ◌∷◌, String,
  Option, none, some, codes, length, drop, leb, ltb, ◌==◌, if◌then◌else◌,
}

abbrev pub starts_with : List ℕ → List ℕ → Bool
starts_with xs [] = true
starts_with [] (y ∷ ys) = false
starts_with (x ∷ xs) (y ∷ ys) = (x == y) && starts_with xs ys

abbrev same_codes : List ℕ → List ℕ → Bool
same_codes [] [] = true
same_codes (x ∷ xs) (y ∷ ys) = (x == y) && same_codes xs ys
same_codes _ _ = false

-- The value of a base64 character; 64 for any other.
unfoldable pub sextet : ℕ → ℕ
sextet c =
    if leb b'A' c && leb c b'Z'
    then c - 65
    else if leb b'a' c && leb c b'z'
    then c - 71
    else if leb b'0' c && leb c b'9'
    then c + 4
    else if c == b'+'
    then 62
    else if c == b'/'
    then 63
    else 64

abbrev put : List ℕ → Option (List ℕ) → Option (List ℕ)
put bytes none = none
put bytes (some rest) = some (prepend bytes rest)
  where
    prepend : List ℕ → List ℕ → List ℕ
    prepend [] ys = ys
    prepend (x ∷ xs) ys = x ∷ prepend xs ys

abbrev is_nil : List ℕ → Bool
is_nil [] = true
is_nil _ = false

-- One group of four characters, with what the groups behind it decode to.
unfoldable pub decode_group : ℕ → ℕ → ℕ → ℕ → Bool → Option (List ℕ) → Option (List ℕ)
unfolding sextet
decode_group a b c d last rest =
    let v = sextet a * 4 + sextet b / 16 in
    let w = sextet b % 16 * 16 + sextet c / 4 in
    let x = sextet c % 4 * 64 + sextet d in
    if not (ltb (sextet a) 64 && ltb (sextet b) 64)
    then none
    else if c == b'='
    then (if (d == b'=') && last then some (v ∷ []) else none)
    else if not (ltb (sextet c) 64)
    then none
    else if d == b'='
    then (if last then some (v ∷ w ∷ []) else none)
    else if not (ltb (sextet d) 64)
    then none
    else put (v ∷ w ∷ x ∷ []) rest

unfoldable pub decode_groups : List ℕ → Option (List ℕ)
unfolding decode_group
decode_groups [] = some []
decode_groups (a ∷ b ∷ c ∷ d ∷ rest) =
    let others = decode_groups rest in decode_group a b c d (is_nil rest) others
decode_groups _ = none

abbrev without_newlines : List ℕ → List ℕ
without_newlines [] = []
without_newlines (c ∷ cs) =
    let rest = without_newlines cs in if (c == 10) || (c == 13) then rest else c ∷ rest

-- `base64.StdEncoding.DecodeString`.
unfoldable pub decode_base64 : List ℕ → Option (List ℕ)
unfolding decode_groups
decode_base64 cs = decode_groups (without_newlines cs)

-- `strings.Cut(value, ",")`.
unfoldable pub cut_comma : List ℕ → Option (List ℕ × List ℕ)
cut_comma [] = none
cut_comma (c ∷ cs) =
    let found = cut_comma cs in
    if c == b','
    then some ([], cs)
    else elim found [ none ↦ none | some (before, after) ↦ some (c ∷ before, after) ]

-- The second byte of an MPEG frame: `raw[1]&0xe0 == 0xe0`.
abbrev mpeg_frame : List ℕ → Bool
mpeg_frame (a ∷ b ∷ _) = (a == 0xff) && (b / 32 == 7)
mpeg_frame _ = false

abbrev image_format : List ℕ → List ℕ → Bool
image_format header raw =
    (same_codes header (codes "data:image/jpeg;base64")
      && starts_with raw (0xff ∷ 0xd8 ∷ 0xff ∷ []))
    || (same_codes header (codes "data:image/png;base64")
        && starts_with raw (137 ∷ 80 ∷ 78 ∷ 71 ∷ 13 ∷ 10 ∷ 26 ∷ 10 ∷ []))

abbrev audio_format : List ℕ → List ℕ → Bool
audio_format header raw =
    (same_codes header (codes "data:audio/mpeg;base64")
      && (starts_with raw (codes "ID3") || mpeg_frame raw))
    || (same_codes header (codes "data:audio/wav;base64")
        && ltb 12 (length raw)
        && starts_with raw (codes "RIFF")
        && starts_with (drop 8 raw) (codes "WAVE"))
    || (same_codes header (codes "data:audio/ogg;base64") && starts_with raw (codes "OggS"))
    || (same_codes header (codes "data:audio/webm;base64")
        && starts_with raw (0x1a ∷ 0x45 ∷ 0xdf ∷ 0xa3 ∷ []))
    || (same_codes header (codes "data:audio/mp4;base64")
        && ltb 12 (length raw)
        && starts_with (drop 4 raw) (codes "ftyp"))

unfoldable pub known_format : Bool → List ℕ → List ℕ → Bool
known_format true header raw = audio_format header raw
known_format false header raw = image_format header raw

unfoldable pub valid_payload : Bool → List ℕ → Option (List ℕ) → Bool
unfolding known_format
valid_payload audio header none = false
valid_payload audio header (some raw) =
    not (length raw == 0) && leb (length raw) 500_000 && known_format audio header raw

unfoldable pub valid_parts : Bool → Option (List ℕ × List ℕ) → Bool
unfolding valid_payload decode_base64
valid_parts audio none = false
valid_parts audio (some (header, payload)) =
    leb (length payload) 700_000 && valid_payload audio header (decode_base64 payload)

unfoldable pub valid_media : List ℕ → Bool → Bool
unfolding valid_parts cut_comma
valid_media [] audio = true
valid_media (c ∷ cs) audio = valid_parts audio (cut_comma (c ∷ cs))

-- `validateFamilyMedia`: whether it returns nil.
unfoldable pub validate_family_media : String → Bool → Bool
unfolding valid_media
validate_family_media value audio = valid_media (codes value) audio

jpeg_signature :
    (validate_family_media "data:image/jpeg;base64,/9j/" false ≡ true)
    × (validate_family_media "data:image/jpeg;base64,/9j/" true ≡ false)
    × (validate_family_media "data:image/jpeg;base64,/9j" false ≡ false)
    × (validate_family_media "data:audio/ogg;base64,T2dnUw==" true ≡ true)
unfolding validate_family_media
jpeg_signature = (refl, refl, refl, refl)
