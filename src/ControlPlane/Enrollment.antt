-- ===== src/ControlPlane/Enrollment.antt =====
-- Many devices with one secret.
use yoma.Prelude.{
  ℕ, ◌+◌, ◌*◌, String, Bool, true, false, List, [], ◌∷◌, map, Option, some, ◌≡◌, refl, ◌∙◌, ap,
  keep, All, eq_refl, ltb, ◌==◌, ◌&&◌, inl, inr, Bool-cases,
}
use yoma.Result.{Result, ok}
use yoma.Value.{second}
use yoma.Dict
use yoma.Dict.{Dict}
use yoma.ControlPlane.Model.{NodeType, NodeState, Organization, YomaNode, EnrollmentToken}
use yoma.ControlPlane.Plane.{Plane, is_valid, enroll_node, token_of, create_node_enrollment}

-- A call of `enroll_node`: the id that the node gets, the time, and the device.
pub record Call : Type 0 where
  pub node_id : String
  pub time : ℕ
  pub device_name : String

-- The active node that a call is to enroll, for an organization, a user and a type of node.
abbrev pub enrolled : String → Option String → NodeType → Call → YomaNode
enrolled organization_id user_id node_type c = record {
  node_id = c.node_id;
  organization_id = organization_id;
  user_id = user_id;
  node_type = node_type;
  device_name = c.device_name;
  state = NodeState.active;
}

-- The dictionary of nodes with a node for each call.
abbrev pub with_nodes : Dict YomaNode → (Call → YomaNode) → List Call → Dict YomaNode
with_nodes d f [] = d
with_nodes d f (c ∷ cs) = with_nodes (Dict.put d c.node_id (f c)) f cs

keep_none {ℓ} :
    {V : Type ℓ} (p : V → Bool) (ws : List V) → All (λ w. p w ≡ false) ws → keep p ws ≡ []
keep_none p [] h = refl
keep_none p (w ∷ ws) h = rw h.0 (keep_none p ws h.1)

-- One element that passes, entered among elements of which none does.
keep-put_only {ℓ} :
    {V : Type ℓ} (p : V → Bool) (d : Dict V) (k : String) (v : V)
    → p v ≡ true
    → All (λ w. p w ≡ false) (Dict.values d)
    → keep p (Dict.values (Dict.put d k v)) ≡ v ∷ []
unfolding Dict.put
keep-put_only p [] k v h none_else = rw h refl
keep-put_only p ((j, w) ∷ d) k v h none_else = elim (Bool-cases (j == k)) [
  | inl same ↦ rw (same, h) (ap (λ ws. v ∷ ws) (keep_none p (Dict.values d) none_else.1))
  | inr other ↦ rw (other, none_else.0) (keep-put_only p d k v h none_else.1)
]

module _ (sha256 : String → String) where
  -- The calls with one secret, one after the other: what they return, and the plane behind them.
  unfoldable pub enroll_all : String → List Call → Plane → List (Result YomaNode) × Plane
  enroll_all raw [] s = ([], s)
  enroll_all raw (c ∷ cs) s =
      let (r, after) = enroll_node sha256 c.node_id c.time raw c.device_name s in
      let (rs, last) = enroll_all raw cs after in (r ∷ rs, last)

  -- The tokens of another secret.
  abbrev pub AreOthers : String → List EnrollmentToken → Type 0
  AreOthers raw ts = All (λ (t : EnrollmentToken). (t.token_hash == sha256 raw) ≡ false) ts

  not_valid :
      (raw : String) (now : ℕ) (ts : List EnrollmentToken)
      → AreOthers raw ts
      → All (λ (t : EnrollmentToken). is_valid sha256 raw now t ≡ false) ts
  not_valid raw now [] h = tt
  not_valid raw now (t ∷ ts) h = (rw h.0 refl, not_valid raw now ts h.1)

  module _ (token_id : String) (now : ℕ) (raw org : String) (node_type : NodeType)
      (user : Option String) where
    abbrev token : EnrollmentToken
    token = token_of sha256 token_id now raw org user node_type

    -- The tokens of the plane are others and this one.
    abbrev Holds : Dict EnrollmentToken → Plane → Type 0
    Holds d s = s.tokens ≡ Dict.put d token_id token

    enroll_node_lem :
        (d : Dict EnrollmentToken) (c : Call) (s : Plane)
        → AreOthers raw (Dict.values d)
        → Holds d s
        → ltb c.time (now + 86400 * second) ≡ true
        → enroll_node sha256 c.node_id c.time raw c.device_name s ≡ (
          ok (enrolled org user node_type c),
          record s { nodes = Dict.put s.nodes c.node_id (enrolled org user node_type c) },
        )
    unfolding enroll_node
    enroll_node_lem d c s others holds early =
        let only : keep (is_valid sha256 raw c.time) (Dict.values s.tokens) ≡ token ∷ [] =
          ap (λ z. keep (is_valid sha256 raw c.time) (Dict.values z)) holds
          ∙ keep-put_only (is_valid sha256 raw c.time) d token_id token
              (ap (λ b. b && ltb c.time (now + 86400 * second)) (eq_refl (sha256 raw)) ∙ early)
              (not_valid raw c.time (Dict.values d) others) in
        rw only refl

    enroll_all_lem :
        (d : Dict EnrollmentToken) (calls : List Call) (s : Plane)
        → AreOthers raw (Dict.values d)
        → Holds d s
        → All (λ (c : Call). ltb c.time (now + 86400 * second) ≡ true) calls
        → enroll_all raw calls s ≡ (
          map (λ c. ok (enrolled org user node_type c)) calls,
          record s { nodes = with_nodes s.nodes (enrolled org user node_type) calls },
        )
    unfolding enroll_all
    enroll_all_lem d [] s others holds early = refl
    enroll_all_lem d (c ∷ cs) s others holds early =
        rw (enroll_node_lem d c s others holds early.0) (
          ap (λ r. (ok (enrolled org user node_type c) ∷ r.0, r.1))
            (enroll_all_lem d cs
              (record s { nodes = Dict.put s.nodes c.node_id (enrolled org user node_type c) })
              others holds early.1))

-- A secret is made for a node of an organization that exists, where no token has its hash yet. Then
-- every call of `enroll_node` with it before it expires, however many there are, returns an active
-- node of the organization, with the user and the type of the token and the id and the device of the
-- call, and stores it under its id; nothing else of the plane changes, and the secret is not used up.
pub secret_enrolls_again :
    (sha256 : String → String) (token_id : String) (now : ℕ) (raw org : String)
    (node_type : NodeType) (user : Option String) (o : Organization) (calls : List Call) (s : Plane)
    → Dict.get s.organizations org ≡ some o
    → AreOthers sha256 raw (Dict.values s.tokens)
    → All (λ (c : Call). ltb c.time (now + 86400 * second) ≡ true) calls
    → (made : Plane) × (create_node_enrollment sha256 token_id now raw org node_type user s
        ≡ (ok raw, made))
      × (enroll_all sha256 raw calls made ≡ (
        map (λ c. ok (enrolled org user node_type c)) calls,
        record made { nodes = with_nodes made.nodes (enrolled org user node_type) calls },
      ))
      × (made.nodes ≡ s.nodes)
unfolding create_node_enrollment
secret_enrolls_again sha256 token_id now raw org node_type user o calls s known others early =
    let made : Plane = record s {
      tokens = Dict.put s.tokens token_id (token_of sha256 token_id now raw org user node_type);
    } in
    (
      made,
      rw known refl,
      enroll_all_lem sha256 token_id now raw org node_type user s.tokens calls made others refl
          early,
      refl,
    )
