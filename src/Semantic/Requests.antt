-- ===== src/Semantic/Requests.antt =====
-- Any requests to internal/controlplane/controller/semantic_layer.go keep the layers unique.
use mission.Prelude.{
  ℕ, ◌≡◌, refl, arith, Bool, Bool-cases, inl, inr, true, false, Option, none, some, List, [], ◌∷◌,
  In, nat_beq, ◌&&◌,
}
use mission.Prelude.Text.{Text}
use mission.Semantic.Types.{SemanticLayerContent, TenantSemanticLayer}
use mission.Semantic.Layers.{Rows, get_by_id, is_approved}
use mission.Semantic.Unique.{IsUnique, create_draft_version-IsUnique}
use mission.Semantic.Approval.{approve_row-IsUnique}
use mission.Prelude.Actions.{
  Result, Found, found, missing, failed, ok, err, ◌>>=◌, or_raise, of_found, raise_if,
}
use mission.Semantic.Methods.{
  store_error, Error, TenantSchemaVersion, Env, Store, Method, decode_semantic_layer_record,
  decode_if_found, called, rows, insert_draft, approve_target, approve_by_id, ensure_membership,
  get_from, get, draft, find_layer, update, approve_found, approve,
}

pub data Request : Type 0 where
  reading : Request
  drafting : ℕ → Request
  updating : ℕ → SemanticLayerContent → Request
  approving : ℕ → Request

-- The store after a request.
unfoldable pub after_request : Env → ℕ → Text → Request → Store → Store
after_request env tenant user reading w = (get env tenant user w).1
after_request env tenant user (drafting version) w = (draft env tenant user version w).1
after_request env tenant user (updating id content) w = (update env tenant user id content w).1
after_request env tenant user (approving id) w = (approve env tenant user id w).1

abbrev pub Kept : {A : Type 0} → Result Error A × Store → Type 0
Kept p = IsUnique p.1.next_id p.1.rows

module _ {A B : Type 0} where
  bind_pair :
      (f : A → Method B) (p : Result Error A × Store)
      → Kept p
      → ((a : A) (w : Store) → IsUnique w.next_id w.rows → Kept (f a w))
      → Kept (elim p.0 as (λ _. Result Error B × Store) [ ok a ↦ f a p.1 | err e ↦ (err e, p.1) ])
  bind_pair f (ok a, w) h k = k a w h
  bind_pair f (err e, w) h k = h

  bind-Kept :
      (m : Method A) (f : A → Method B) (w : Store)
      → Kept (m w)
      → ((a : A) (w' : Store) → IsUnique w'.next_id w'.rows → Kept (f a w'))
      → Kept ((m >>= f) w)
  unfolding ◌>>=◌
  bind-Kept m f w h k = bind_pair f (m w) h k

module _ {A : Type 0} where
  or_raise-Kept :
      (e : Error) (o : Option A) (w : Store) → IsUnique w.next_id w.rows → Kept (or_raise e o w)
  or_raise-Kept e none w h = h
  or_raise-Kept e (some a) w h = h

  of_found-Kept :
      (e : Error) (f : Found A) (w : Store)
      → IsUnique w.next_id w.rows
      → Kept (of_found e store_error f w)
  of_found-Kept e (found a) w h = h
  of_found-Kept e missing w h = h
  of_found-Kept e failed w h = h

decode-Kept :
    (layer : TenantSemanticLayer) (w : Store)
    → IsUnique w.next_id w.rows
    → Kept (decode_semantic_layer_record layer w)
unfolding decode_semantic_layer_record
decode-Kept layer w h =
    bind-Kept (or_raise _ layer.content) _ w (or_raise-Kept _ layer.content w h)
      (λ c w1 h1. bind-Kept (raise_if _ _) _ w1 h1 (λ _ w2 h2. h2))

decode_if_found-Kept :
    (o : Option TenantSemanticLayer) (w : Store)
    → IsUnique w.next_id w.rows
    → Kept (decode_if_found o w)
unfolding decode_if_found
decode_if_found-Kept none w h = h
decode_if_found-Kept (some layer) w h =
    bind-Kept (decode_semantic_layer_record layer) _ w (decode-Kept layer w h) (λ _ w1 h1. h1)

get_by_id-In :
    (tenant id : ℕ) (ls : Rows) (l : TenantSemanticLayer)
    → get_by_id tenant id ls ≡ some l
    → In l ls
unfolding get_by_id
get_by_id-In tenant id [] l h = absurd (ground (arith, h))
get_by_id-In tenant id (m ∷ ms) l h =
    elim (Bool-cases (nat_beq m.tenant_id tenant && nat_beq m.id id)) [
      | inl t ↦ inl (ground (arith, h, t))
      | inr t ↦ inr (get_by_id-In tenant id ms l (ground (arith, h, t)))
    ]

module _ (env : Env) (tenant : ℕ) (user : Text) where
  called-Kept : (w : Store) → IsUnique w.next_id w.rows → Kept (called env tenant user w)
  unfolding called
  called-Kept w h = h

  insert_draft-Kept :
      (version : ℕ) (content : SemanticLayerContent) (w : Store)
      → IsUnique w.next_id w.rows
      → Kept (insert_draft env tenant user version content w)
  unfolding insert_draft
  insert_draft-Kept version content w h = create_draft_version-IsUnique _ w.rows refl h

  approve_target-Kept :
      (o : Option TenantSemanticLayer) (w : Store)
      → ((l : TenantSemanticLayer) → o ≡ some l → In l w.rows)
      → IsUnique w.next_id w.rows
      → Kept (approve_target env tenant user o w)
  unfolding approve_target
  approve_target-Kept none w here h = h
  approve_target-Kept (some target) w here h =
      approve_row-IsUnique target env.now user w.next_id w.rows (here target refl) h

  approve_by_id-Kept :
      (id : ℕ) (w : Store) → IsUnique w.next_id w.rows → Kept (approve_by_id env tenant user id w)
  unfolding approve_by_id
  approve_by_id-Kept id w h =
      approve_target-Kept (get_by_id tenant id w.rows) w (λ l e. get_by_id-In tenant id w.rows l e)
        h

  member-Kept : (w : Store) → IsUnique w.next_id w.rows → Kept (ensure_membership env tenant user w)
  unfolding ensure_membership
  member-Kept w h = of_found-Kept _ (env.membership user) w h

  get_from-Kept :
      (f : Found TenantSchemaVersion) (w : Store)
      → IsUnique w.next_id w.rows
      → Kept (get_from env tenant user f w)
  unfolding get_from
  get_from-Kept missing w h = h
  get_from-Kept failed w h = h
  get_from-Kept (found schema) w h =
      bind-Kept (called env tenant user) _ w (called-Kept w h) (λ _ w1 h1.
        bind-Kept (rows env tenant user) _ w1 h1 (λ ls w2 h2.
          bind-Kept (decode_if_found _) _ w2 (decode_if_found-Kept _ w2 h2) (λ current w3 h3.
            bind-Kept (called env tenant user) _ w3 (called-Kept w3 h3) (λ _ w4 h4.
              bind-Kept (decode_if_found _) _ w4 (decode_if_found-Kept _ w4 h4)
                (λ baseline w5 h5. h5)))))

  get-Kept : (w : Store) → IsUnique w.next_id w.rows → Kept (get env tenant user w)
  unfolding get
  get-Kept w h =
      bind-Kept (ensure_membership env tenant user) _ w (member-Kept w h)
        (λ _ w1 h1. get_from-Kept _ w1 h1)

  draft-Kept :
      (version : ℕ) (w : Store) → IsUnique w.next_id w.rows → Kept (draft env tenant user version w)
  unfolding draft
  draft-Kept version w h =
      bind-Kept (ensure_membership env tenant user) _ w (member-Kept w h) (λ _ w1 h1.
        bind-Kept (of_found _ _ (env.schema_by_id version)) _ w1
          (of_found-Kept _ (env.schema_by_id version) w1 h1)
          (λ schema w2 h2.
            bind-Kept (or_raise _ schema.blob) _ w2 (or_raise-Kept _ schema.blob w2 h2)
              (λ blob w3 h3.
                bind-Kept (or_raise _ (env.complete schema)) _ w3
                  (or_raise-Kept _ (env.complete schema) w3 h3)
                  (λ c w4 h4.
                    bind-Kept (or_raise _ c.content) _ w4 (or_raise-Kept _ c.content w4 h4)
                      (λ g w5 h5. bind-Kept (raise_if _ _) _ w5 h5 (λ _ w6 h6.
                        bind-Kept (called env tenant user) _ w6 (called-Kept w6 h6) (λ _ w7 h7.
                          bind-Kept (insert_draft env tenant user version _) _ w7
                            (insert_draft-Kept version _ w7 h7) (λ l w8 h8. h8))))))))

  find_layer-Kept :
      (id : ℕ) (w : Store) → IsUnique w.next_id w.rows → Kept (find_layer env tenant user id w)
  unfolding find_layer
  find_layer-Kept id w h = bind-Kept (called env tenant user) _ w (called-Kept w h) (λ _ w1 h1.
      bind-Kept (rows env tenant user) _ w1 h1 (λ ls w2 h2.
        bind-Kept (or_raise _ (get_by_id tenant id ls)) _ w2
          (or_raise-Kept _ (get_by_id tenant id ls) w2 h2)
          (λ l w3 h3. bind-Kept (raise_if _ _) _ w3 h3 (λ _ w4 h4. h4))))

  update-Kept :
      (id : ℕ) (content : SemanticLayerContent) (w : Store)
      → IsUnique w.next_id w.rows
      → Kept (update env tenant user id content w)
  unfolding update
  update-Kept id content w h =
      bind-Kept (ensure_membership env tenant user) _ w (member-Kept w h) (λ _ w1 h1.
        bind-Kept (find_layer env tenant user id) _ w1 (find_layer-Kept id w1 h1) (λ base w2 h2.
          bind-Kept (decode_semantic_layer_record base) _ w2 (decode-Kept base w2 h2) (λ r w3 h3.
            bind-Kept (raise_if _ _) _ w3 h3 (λ _ w4 h4.
              bind-Kept (called env tenant user) _ w4 (called-Kept w4 h4) (λ _ w5 h5.
                bind-Kept (insert_draft env tenant user base.schema_version_id _) _ w5
                  (insert_draft-Kept _ _ w5 h5) (λ l w6 h6. h6))))))

  approve_found-Kept :
      (id : ℕ) (b : Bool) (l : TenantSemanticLayer) (w : Store)
      → IsUnique w.next_id w.rows
      → Kept (approve_found env tenant user id b l w)
  unfolding approve_found
  approve_found-Kept id true l w h = decode-Kept l w h
  approve_found-Kept id false l w h =
      bind-Kept (called env tenant user) _ w (called-Kept w h) (λ _ w1 h1.
        bind-Kept (approve_by_id env tenant user id) _ w1 (approve_by_id-Kept id w1 h1)
          (λ a w2 h2. decode-Kept a w2 h2))

  approve-Kept :
      (id : ℕ) (w : Store) → IsUnique w.next_id w.rows → Kept (approve env tenant user id w)
  unfolding approve
  approve-Kept id w h =
      bind-Kept (ensure_membership env tenant user) _ w (member-Kept w h) (λ _ w1 h1.
        bind-Kept (find_layer env tenant user id) _ w1 (find_layer-Kept id w1 h1)
          (λ l w2 h2. approve_found-Kept id (is_approved l.status) l w2 h2))

  after_request-IsUnique :
      (req : Request) (w : Store)
      → IsUnique w.next_id w.rows
      → IsUnique
          (after_request env tenant user req w).next_id
          (after_request env tenant user req w).rows
  unfolding after_request
  after_request-IsUnique reading w h = get-Kept w h
  after_request-IsUnique (drafting version) w h = draft-Kept version w h
  after_request-IsUnique (updating id content) w h = update-Kept id content w h
  after_request-IsUnique (approving id) w h = approve-Kept id w h

-- A request, with what the rest of the program answers while it runs.
pub record Call : Type 0 where
  pub env : Env
  pub tenant : ℕ
  pub user : Text
  pub request : Request

unfoldable pub serve : List Call → Store → Store
serve [] w = w
serve (c ∷ cs) w = serve cs (after_request c.env c.tenant c.user c.request w)

-- When the rows have what the unique indices of tenant_semantic_layers ask, they have it after any requests
-- of any tenants and users, refused or not, whatever the model answered and the database failed at: an
-- identifier names one row, and a tenant's schema version has at most one draft and at most one approved
-- layer. So the indices never refuse what a method writes.
pub serve-IsUnique :
    (calls : List Call) (w : Store)
    → IsUnique w.next_id w.rows
    → IsUnique (serve calls w).next_id (serve calls w).rows
unfolding serve
serve-IsUnique [] w h = h
serve-IsUnique (c ∷ cs) w h =
    serve-IsUnique cs (after_request c.env c.tenant c.user c.request w)
      (after_request-IsUnique c.env c.tenant c.user c.request w h)
