-- ===== src/Upstream.antt =====
-- The upstream accounts: `Upstream` of internal/gateway/snapshot.go, `mapModel` of
-- internal/gateway/upstream.go, `ProtocolType` of internal/provider/registry.go, and `pickProto` of
-- internal/gateway/handler.go. The wire protocols of internal/model are a data type; the empty
-- protocol of `pickProto` is `none`.
pub mod Order
pub mod Protocols
pub mod Retry
mod Tests
use Prim.Native.Nat.{compare, Ordering}
use text.Mathlib.Text.{◌==◌}
use yzapi.Base.{
  ℕ, String, Bool, true, false, not, ◌&&◌, ◌||◌, Option, none, some, List, [], ◌∷◌, if◌then◌else◌,
}
use yzapi.Base.Int.{ℤ}

pub data Proto : Type 0 where
  chat responses messages gemini embeddings images custom_json : Proto

pub data ProtoType : Type 0 where
  type_text type_image type_embedding type_custom : ProtoType

-- `ProtocolType`
abbrev pub protocol_type : Proto → ProtoType
protocol_type images = type_image
protocol_type embeddings = type_embedding
protocol_type custom_json = type_custom
protocol_type chat = type_text
protocol_type responses = type_text
protocol_type messages = type_text
protocol_type gemini = type_text

-- `== model.TypeText`
abbrev pub is_text : ProtoType → Bool
is_text type_text = true
is_text type_image = false
is_text type_embedding = false
is_text type_custom = false

-- `==` on protocols, by their places in the list above
abbrev code : Proto → ℕ
code chat = 0
code responses = 1
code messages = 2
code gemini = 3
code embeddings = 4
code images = 5
code custom_json = 6

abbrev pub same_proto : Proto → Proto → Bool
same_proto p q = elim (compare (code p) (code q)) [ Ordering.eq ↦ true | _ ↦ false ]

-- `Upstream`: the fields that the gateway decides by
pub record Upstream : Type 0 where
  pub id : ℕ
  pub protocols : Proto → Bool
  pub mappings : String → Option String
  pub priority : ℤ
  pub weight : ℤ
  pub max_concurrency : ℤ
  pub endpoints : String → Bool

-- `mapModel`
pub map_model : Upstream → String → String
map_model up model = elim (up.mappings model) [
  | none ↦ model
  | some m ↦ if m == "" then model else m
]

-- the first of a list of protocols that the account has
unfoldable pub first_of : List Proto → Upstream → Option Proto
first_of [] up = none
first_of (p ∷ ps) up = elim (up.protocols p) [ true ↦ some p | false ↦ first_of ps up ]

abbrev pub text_protocols : List Proto
text_protocols = chat ∷ responses ∷ messages ∷ gemini ∷ []

-- `pickProto`
unfoldable pub pick_proto : Upstream → Proto → Bool → Option Proto
unfolding first_of
pick_proto up client conversion =
    if up.protocols client
    then some client
    else if not conversion || not (is_text (protocol_type client))
    then none
    else first_of text_protocols up
