-- ===== src/Snapshot/Resolve.antt =====
-- `ResolveDetail` and `versionLike` of internal/gateway/snapshot.go. `lower` is `strings.ToLower`, whose
-- Unicode tables are a parameter. Lengths and cuts count characters where the code counts bytes; the two
-- agree on names in ASCII.
pub mod Sound
pub mod Versions
use Prim.Native.Char.{Char, code}
use Prim.Native.String.{len, slice}
use Prim.Native.String as Text
use text.Mathlib.Text.{◌==◌, starts_with}
use yzapi.Base.{
  ℕ, ◌+◌, ◌-◌, String, Bool, true, false, not, ◌&&◌, ◌||◌, Option, none, some, List, [], ◌∷◌, ◌++◌,
  leb, if◌then◌else◌,
}
use yzapi.Base.Int.{ℤ, pos, negsuc, ltb_ℤ, eq_ℤ}
use yzapi.Upstream.{ProtoType, Upstream, type_text, type_image, type_embedding, type_custom}
use yzapi.Snapshot.{Snapshot}

-- `==` on types, by their places in the list
abbrev place : ProtoType → ℕ
place type_text = 0
place type_image = 1
place type_embedding = 2
place type_custom = 3

abbrev pub same_type : ProtoType → ProtoType → Bool
same_type s t = eq_ℤ (pos (place s)) (pos (place t))

-- `vendorPrefixes`
abbrev pub vendor_prefixes : List String
vendor_prefixes =
    "anthropic/" ∷ "openai/" ∷ "deepseek/" ∷ "google/" ∷ "models/" ∷ "x-ai/" ∷ "xai/"
    ∷ "moonshotai/" ∷ "moonshot/" ∷ "zhipu/" ∷ "z-ai/" ∷ "minimax/" ∷ "qwen/" ∷ "alibaba/"
    ∷ "meta-llama/" ∷ "mistralai/" ∷ []

abbrev is_digit : Char → Bool
is_digit c = leb b'0' (code c) && leb (code c) b'9'

-- the loop of `versionLike`
unfoldable pub only_version : String → Bool
only_version String.[] = true
only_version (String.◌∷◌ c s) =
    let rest = only_version s in
    if is_digit c || eq_ℤ (pos (code c)) (pos b'-') || eq_ℤ (pos (code c)) (pos b'.')
    then rest
    else false

abbrev first_digit : String → Bool
first_digit String.[] = false
first_digit (String.◌∷◌ c s) = is_digit c

-- `versionLike`
unfoldable pub version_like : String → Bool
unfolding only_version
version_like rest =
    if rest == ""
    then false
    else if rest == "latest"
    then true
    else if not (only_version rest)
    then false
    else first_digit rest

-- Resolution outcomes; an empty type is `none`
pub data Resolution : Type 0 where
  found : String → Option ProtoType → Resolution
  unknown : Resolution
  ambiguous : Resolution

-- what `try` answers; `doubled` also sets `ambiguous`
pub data Try : Type 0 where
  hit : String → Option ProtoType → Try
  missed : Try
  doubled : Try

-- a lookup in `lowerName`
unfoldable pub lookup : String → List (String × String) → Option String
lookup l [] = none
lookup l ((k, c) ∷ m) = let rest = lookup l m in if k == l then some c else rest

-- the text after the last "/"
unfoldable pub after_slash : String → Option String
after_slash String.[] = none
after_slash (String.◌∷◌ c s) = elim (after_slash s) [
  | some t ↦ some t
  | none ↦ if eq_ℤ (pos (code c)) (pos b'/') then some s else none
]

-- if i := strings.LastIndex(n, "/"); i >= 0 && i < len(n)-1 { n = n[i+1:] }
unfoldable pub last_segment : String → String
unfolding after_slash
last_segment n = elim (after_slash n) [ none ↦ n | some t ↦ if t == "" then n else t ]

-- for _, p := range vendorPrefixes
unfoldable pub strip : List String → String → String → String
strip [] lowered n = n
strip (p ∷ ps) lowered n =
    let rest = strip ps lowered n in if starts_with lowered p then slice n (len p) (len n) else rest

-- the extra segment, where one of the two names goes on from the other with a dash
unfoldable pub extra : String → String → Option String
extra ln l =
    if starts_with ln (Text.◌++◌ l "-")
    then some (slice ln (len l + 1) (len ln))
    else if starts_with l (Text.◌++◌ ln "-")
    then some (slice l (len ln + 1) (len l))
    else none

abbrev has_type : Option ProtoType → ProtoType → Bool
has_type none t = false
has_type (some s) t = same_type s t

-- a candidate of the version match: its length in lower case, its name, and its mark in `lowerDup`
pub record Candidate : Type 0 where
  pub size : ℕ
  pub name : String
  pub dup : Bool

-- `matches` and `bestLen`
pub record Best : Type 0 where
  pub matches : List Candidate
  pub size : ℤ

abbrev pub no_match : Best
no_match = record { matches = []; size = negsuc 0 }

-- the last `switch` of the loop
unfoldable pub add : Candidate → Best → Best
add c b =
    if ltb_ℤ b.size (pos c.size)
    then record { matches = c ∷ []; size = pos c.size }
    else if eq_ℤ (pos c.size) b.size
    then record b { matches = b.matches ++ (c ∷ []) }
    else b

-- `wantType != "" && s.modelType[c] != wantType`
abbrev pub wrong_type : Option ProtoType → Option ProtoType → Bool
wrong_type none of_model = false
wrong_type (some t) of_model = not (has_type of_model t)

abbrev pub is_version : Option String → Bool
is_version none = false
is_version (some rest) = version_like rest

-- whether an entry of `lowerName` gets to that `switch`
unfoldable pub qualifies : Snapshot → Option ProtoType → String → String × String → Bool
unfolding extra version_like
qualifies s want ln (l, c) =
    if wrong_type want (s.model_type c) then false else is_version (extra ln l)

abbrev pub candidate : Snapshot → String × String → Candidate
candidate s (l, c) = record { size = len l; name = c; dup = s.lower_dup l }

-- for l, c := range s.lowerName
unfoldable pub scan : Snapshot → Option ProtoType → String → List (String × String) → Best → Best
unfolding qualifies add
scan s want ln [] b = b
scan s want ln (e ∷ es) b =
    scan s want ln es (if qualifies s want ln e then add (candidate s e) b else b)

-- the accounts that take any name, of the wanted type or of the first type that has one
unfoldable pub pass : Snapshot → String → List ProtoType → Resolution
pass s name [] = unknown
pass s name (t ∷ ts) = elim (s.passthrough t) [
  | [] ↦ pass s name ts
  | up ∷ ups ↦ found name (some t)
]

abbrev pub wanted : Option ProtoType → List ProtoType
wanted none = type_text ∷ type_embedding ∷ type_image ∷ type_custom ∷ []
wanted (some t) = t ∷ []

-- after the version match, of `matches` and `ambiguous`
unfoldable pub settle : Snapshot → String → Option ProtoType → List Candidate → Bool → Resolution
unfolding pass
settle s name want (c ∷ []) ambig =
    if not c.dup && not ambig then found c.name (s.model_type c.name) else ambiguous
settle s name want [] ambig = if ambig then ambiguous else pass s name (wanted want)
settle s name want (c ∷ c' ∷ cs) ambig = ambiguous

module _ (lower : String → String) where
  -- `try`
  unfoldable pub try : Snapshot → String → Try
  unfolding lookup
  try s n = elim (s.model_type n) [
    | some t ↦ hit n (some t)
    | none ↦ if s.lower_dup (lower n) then doubled else elim (lookup (lower n) s.lower_name) [
      | some c ↦ hit c (s.model_type c)
      | none ↦ missed
    ]
  ]

  -- `if c, t, ok := try(n); ok` with what follows if it is not
  abbrev pub or_else : Try → Bool → (Bool → Resolution) → Resolution
  or_else (hit c t) ambig next = found c t
  or_else missed ambig next = next ambig
  or_else doubled ambig next = next true

  abbrev without_latest : String → String
  without_latest n = slice n 0 (len n - 7)

  -- strings.HasSuffix(strings.ToLower(n), "-latest")
  abbrev is_latest : String → Bool
  is_latest n =
      leb 7 (len (lower n)) && slice (lower n) (len (lower n) - 7) (len (lower n)) == "-latest"

  -- from the "-latest" test on
  unfoldable pub resolve_versions :
      Snapshot → String → Option ProtoType → String → Bool → Resolution
  unfolding scan settle
  resolve_versions s name want n ambig =
      settle s name want (scan s want (lower n) s.lower_name no_match).matches ambig

  unfoldable pub resolve_latest : Snapshot → String → Option ProtoType → String → Bool → Resolution
  unfolding try resolve_versions
  resolve_latest s name want n ambig =
      if is_latest n
      then or_else (try s (without_latest n)) ambig (λ a. resolve_versions s name want n a)
      else resolve_versions s name want n ambig

  -- the name without a vendor's prefix
  unfoldable pub bare : String → String
  unfolding strip last_segment
  bare name = last_segment (strip vendor_prefixes (lower name) name)

  -- `ResolveDetail`
  unfoldable pub resolve : Snapshot → String → Option ProtoType → Resolution
  unfolding try bare resolve_latest
  resolve s name want =
      or_else (try s name) false
        (λ a. or_else (try s (bare name)) a (λ a'. resolve_latest s name want (bare name) a'))
