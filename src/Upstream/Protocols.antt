-- ===== src/Upstream/Protocols.antt =====
-- The choice of a wire protocol by `pickProto` of internal/gateway/handler.go.
use mathlib.Core.Bool.{true≢false}
use yzapi.Base.{Option-cases, inl, inr, sym, ◌∙◌, ◌≡◌, ◌⊎◌, Bool, true, false, none, some, arith}
use yzapi.Upstream.{Proto, Upstream, is_text, protocol_type, first_of, pick_proto}

-- What a choice promises: a protocol of the account, and a conversion only from text to text, when
-- it is on and the account lacks the client's own protocol.
abbrev pub Convertible : Upstream → Proto → Bool → Proto → Type 0
Convertible up client conversion p =
    (up.protocols client ≡ false)
    × (conversion ≡ true)
    × (is_text (protocol_type client) ≡ true)
    × (is_text (protocol_type p) ≡ true)

-- A protocol that `pickProto` answers is one that the account has; it is the client's own, or else
-- both are text protocols, conversion is on, and the account does not have the client's own.
pick_proto_sound :
    (up : Upstream) (client : Proto) (conversion : Bool) (p : Proto)
    → pick_proto up client conversion ≡ some p
    → (up.protocols p ≡ true) × ((p ≡ client) ⊎ Convertible up client conversion p)
unfolding pick_proto first_of
pick_proto_sound up client conversion p e = ground arith

-- When `pickProto` answers none, the account cannot serve the client: it lacks the client's
-- protocol, and, should conversion be on and the client's protocol be text, every text protocol.
pick_proto_complete :
    (up : Upstream) (client : Proto) (conversion : Bool) (p : Proto)
    → pick_proto up client conversion ≡ none
    → (p ≡ client)
      ⊎ ((conversion ≡ true)
          × (is_text (protocol_type client) ≡ true)
          × (is_text (protocol_type p) ≡ true))
    → up.protocols p ≡ false
unfolding pick_proto first_of
pick_proto_complete up client conversion p e could = ground arith

-- What may serve the client: its own protocol, or any text protocol if conversion is on and the client's
-- protocol is text
abbrev pub Eligible : Proto → Bool → Proto → Type 0
Eligible client conversion p =
    (p ≡ client)
    ⊎ ((conversion ≡ true)
        × (is_text (protocol_type client) ≡ true)
        × (is_text (protocol_type p) ≡ true))

-- A protocol that `pickProto` answers is one that the account has; it is the client's own, or else
-- both are text protocols, conversion is on, and the account does not have the client's own. When it
-- answers none, the account has no protocol that could serve the client: not the client's own and,
-- should conversion be on and the client's protocol be text, no text protocol.
pub pick_proto_lem :
    (up : Upstream) (client : Proto) (conversion : Bool)
    → ((p : Proto) × (pick_proto up client conversion ≡ some p)
        × (up.protocols p ≡ true)
        × ((p ≡ client) ⊎ Convertible up client conversion p))
      ⊎ ((pick_proto up client conversion ≡ none)
          × ¬ ((p : Proto) × Eligible client conversion p × (up.protocols p ≡ true)))
pick_proto_lem up client conversion = elim (Option-cases (pick_proto up client conversion)) [
  | inr (p, e) ↦ let (has, why) = pick_proto_sound up client conversion p e in inl (p, e, has, why)
  | inl e ↦ inr (
    e,
    λ (p, could, has). true≢false (sym has ∙ pick_proto_complete up client conversion p e could),
  )
]
