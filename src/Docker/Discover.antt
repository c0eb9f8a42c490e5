-- ===== src/Docker/Discover.antt =====
-- Which container `Discover` chooses.
use sentnodes_agent.Base.{
  true, false, List, [], ◌∷◌, ◌++◌, All, ◌≡◌, inl, inr, refl, ap, Bool-cases,
}
use sentnodes_agent.Base.Text.{Text, has_prefix}
use sentnodes_agent.Docker.{
  Container, Engine, DockerError, not_found, Called, answered, refused, panics, inspect_container,
  has_node_mount, id_and_name, take_or, find_container,
}

module _ (engine : Engine) (self source name : Text) where
  -- The container of the agent, one that cannot be inspected, or one without a mount of the node.
  pub data IsSkipped (id : Text) : Type 0 where
    is_self : has_prefix id self ≡ true → IsSkipped id
    is_refused : (e : DockerError) → inspect_container engine id ≡ refused e → IsSkipped id
    is_other :
        (c : Container)
        → inspect_container engine id ≡ answered c
        → has_node_mount engine source name c.mounts ≡ false
        → IsSkipped id

  -- `id` stands in the list behind containers that are skipped, and is not the agent's.
  pub record IsFirst (ids : List Text) (id : Text) : Type 0 where
    pub before : List Text
    pub after : List Text
    pub split_at : ids ≡ before ++ id ∷ after
    pub skipped : All IsSkipped before
    pub not_self : has_prefix id self ≡ false

  pub data Finds (ids : List Text) : Called (Text × Text) → Type 0 where
    finds :
        (id : Text) (c : Container)
        → IsFirst ids id
        → inspect_container engine id ≡ answered c
        → has_node_mount engine source name c.mounts ≡ true
        → Finds ids (answered (id_and_name engine c))
    finds_none : All IsSkipped ids → Finds ids (refused not_found)
    crashes : (id : Text) → IsFirst ids id → inspect_container engine id ≡ panics → Finds ids panics

  IsFirst-past :
      (x id : Text) (ids : List Text) → IsSkipped x → IsFirst ids id → IsFirst (x ∷ ids) id
  IsFirst-past x id ids s f = record {
    before = x ∷ f.before;
    after = f.after;
    split_at = ap (x ∷◌) f.split_at;
    skipped = (s, f.skipped);
    not_self = f.not_self;
  }

  Finds-past :
      (x : Text) (ids : List Text) {r : Called (Text × Text)}
      → IsSkipped x
      → Finds ids r
      → Finds (x ∷ ids) r
  Finds-past x ids s (finds id c f e m) = finds id c (IsFirst-past x id ids s f) e m
  Finds-past x ids s (finds_none a) = finds_none (s, a)
  Finds-past x ids s (crashes id f e) = crashes id (IsFirst-past x id ids s f) e

  IsFirst-here : (id : Text) (ids : List Text) → has_prefix id self ≡ false → IsFirst (id ∷ ids) id
  IsFirst-here id ids n = record {
    before = [];
    after = ids;
    split_at = refl;
    skipped = tt;
    not_self = n;
  }

  take_or-Finds :
      (id : Text) (ids : List Text) (r : Called Container) (rest : Called (Text × Text))
      → has_prefix id self ≡ false
      → inspect_container engine id ≡ r
      → Finds ids rest
      → Finds (id ∷ ids) (take_or engine source name r rest)
  take_or-Finds id ids (refused e) rest n h f = Finds-past id ids (is_refused e h) f
  take_or-Finds id ids panics rest n h f = crashes id (IsFirst-here id ids n) h
  take_or-Finds id ids (answered c) rest n h f =
      elim (Bool-cases (has_node_mount engine source name c.mounts)) [
        | inl match ↦ rw match (finds id c (IsFirst-here id ids n) h match)
        | inr other ↦ rw other (Finds-past id ids (is_other c h other) f)
      ]

  -- The loop of `Discover` returns the id and the name of the first container of the list that has a
  -- mount of the node, is not the agent's own and can be inspected, and an error exactly when every
  -- container is skipped.
  pub find_container-Finds :
      (ids : List Text) → Finds ids (find_container engine self source name ids)
  unfolding find_container
  find_container-Finds [] = finds_none tt
  find_container-Finds (id ∷ ids) = elim (Bool-cases (has_prefix id self)) [
    | inl own ↦ rw own (Finds-past id ids (is_self own) (find_container-Finds ids))
    | inr foreign ↦ rw foreign (
        take_or-Finds id ids (inspect_container engine id) _ foreign refl
          (find_container-Finds ids))
  ]
