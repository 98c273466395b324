-- ===== src/Client/Saved.antt =====
-- What `SyncOnce` of client/client.go saves, and what becomes of the operations.
use line_go.Common.{
  String, Bool, true, false, not, Option, none, some, ◌≡◌, refl, sym, ap, ◌∙◌, subst, List, [], ◌⊎◌,
  inl, inr, Option-cases, ℤ, if◌then◌else◌,
}
use line_go.Storage.{SyncState, Session, FileError, save, load, read_result, load-save, save-keeps}
use line_go.Protocol.Value.{Value, members, Members}
use line_go.Client.{
  Fault, Client, Env, Act, done, failed, and_then, ◌>>=◌, pure, throw, get, modify, wrapping,
  bad_count, sync, wrapped_result, own,
}
use line_go.Client.Models.{Operation}
use line_go.Client.Replies.{saved_result, is_positive}
use line_go.Client.Requests.{save_session, call}
use line_go.Client.Sync.{
  is_below, read_response, with_state, ensure_access_token, sync_fields, accept, requested,
  request_sync, sync_once,
}
use line_go.Client.Does.{>>=-done, wrapping-done}
use line_go.Client.Posts.Syncs.{Posts-ensure_access_token}
use line_go.Client.Rotation.{done_inj}
use line_go.Client.Revisions.{AllUpTo, read_response-bounds}

saved_result-none : (o : Option FileError) → saved_result o ≡ done tt → o ≡ none
unfolding saved_result
saved_result-none none k = refl
saved_result-none (some e) k = cc

module _ {M : Type 0} (env : Env M) where
  -- Where a response is not taken, its revisions are in memory already, and the file is the old one.
  pub accept-lost :
      (state : SyncState) (response : Members) (c : Client M) (e : Fault)
      → (accept env state (members response) c).1 ≡ failed e
      → ((accept env state (members response) c).0.session.sync_state
          ≡ (read_response env.text state response).state)
        × ((accept env state (members response) c).0.file ≡ c.file)
  unfolding accept save_session saved_result wrapping wrapped_result ◌>>=◌ and_then modify pure
      with_state
  accept-lost state response c e h =
      let c₁ = with_state (read_response env.text state response).state c in
      elim (Option-cases (save env.json (env.at c.tick).calls c₁.session c.file).1) [
        | inl saved ↦
            let works : (accept env state (members response) c).1
                ≡ done (
                  (read_response env.text state response).operations,
                  (read_response env.text state response).has_more,
                ) =
              rw (saved, accept) refl in
            cc
        | inr (error, unsaved) ↦
            rw (unsaved, accept)
              (refl, save-keeps env.json (env.at c.tick).calls c₁.session c.file unsaved)
      ]

  requested-state :
      (count : ℤ) (c : Client M) (asked : SyncState × Value)
      → (requested env count c).1 ≡ done asked
      → c.session.sync_state ≡ asked.0
  unfolding requested get ◌>>=◌ and_then pure
  requested-state count c asked h =
      let (value, got, whole) =
        >>=-done
          (call env sync (env.bytes "sync") (sync_fields c.session.sync_state count)
            c.session.access_token)
          (λ value. pure {M = M} (c.session.sync_state, value)) c h in
      ap (λ p. p.0) (done_inj (sym (ap (λ r. r.1) whole) ∙ h))

  -- A call is made by the revisions that the client has.
  request_sync-state :
      (count : ℤ) (c : Client M) (asked : SyncState × Value)
      → (request_sync env count c).1 ≡ done asked
      → asked.0 ≡ c.session.sync_state
  unfolding request_sync
  request_sync-state count c asked h =
      let (u, ensured, whole) = >>=-done (ensure_access_token env) (λ u. requested env count) c h in
      sym
        (requested-state count (ensure_access_token env c).0 asked (sym (ap (λ r. r.1) whole) ∙ h))
      ∙ (Posts-ensure_access_token env).same c

  -- Decoding undoes the encoding of a session.
  abbrev pub Undoes : Session M → Type 0
  Undoes session =
      (bytes : String)
      → env.json.marshal session ≡ some bytes
      → env.json.unmarshal bytes ≡ some session

  save_session-load :
      (c : Client M)
      → Undoes c.session
      → (save_session env c).1 ≡ done tt
      → load env.json (read_result (save_session env c).0.file) ≡ inl (save_session env c).0.session
  unfolding save_session
  save_session-load c undo h =
      let worked = saved_result-none (save env.json (env.at c.tick).calls c.session c.file).1 h in
      elim (load-save env.json (env.at c.tick).calls c.session c.file undo) [
        | inl (saved, loads) ↦ loads
        | inr (not_saved, old) ↦ absurd (not_saved worked)
      ]

  -- A client that took a response: what is saved, and which operations it has.
  abbrev pub IsTaken : SyncState → List Operation → Client M → Type 0
  IsTaken old operations c =
      (load env.json (read_result c.file) ≡ inl c.session)
      × AllUpTo c.session.sync_state.revision operations
      × ((operations ≡ []) ⊎ (is_below c.session.sync_state.revision old.revision ≡ false))

  accept-IsTaken :
      (state : SyncState) (value : Value) (c : Client M) (operations : List Operation)
      (has_more : Bool)
      → Undoes (accept env state value c).0.session
      → (accept env state value c).1 ≡ done (operations, has_more)
      → IsTaken state operations (accept env state value c).0
  unfolding accept throw ◌>>=◌ and_then modify pure with_state wrapping save_session
  accept-IsTaken state (members response) c operations has_more undo h =
      let synced = read_response env.text state response in
      let c₁ = with_state synced.state c in
      let (u, saved, whole) =
        >>=-done (wrapping (save_session env))
          (λ u. pure {M = M} (synced.operations, synced.has_more)) c₁ h in
      let taken : synced.operations ≡ operations =
        ap (λ r. r.0) (done_inj (sym (ap (λ r. r.1) whole) ∙ h)) in
      let base : IsTaken state synced.operations (save_session env c₁).0 = (
        save_session-load c₁ (subst (λ r. Undoes r.0.session) whole undo)
            (wrapping-done (save_session env) c₁ saved),
        (read_response-bounds env.text state response).0,
        (read_response-bounds env.text state response).1,
      ) in
      subst (λ r. IsTaken state operations r.0) (sym whole)
        (subst (λ ops. IsTaken state ops (save_session env c₁).0) taken base)
  accept-IsTaken state _ c operations has_more undo h = cc

  -- Where decoding undoes the encoding of the session that a sync leaves, and the sync returns
  -- operations: the file has the session that is in memory, so its revisions too, no operation is
  -- newer than its revision, and the revision is not below the one before, unless there is no
  -- operation.
  pub sync_once-saved :
      (count : ℤ) (c : Client M) (operations : List Operation) (has_more : Bool)
      → Undoes (sync_once env count c).0.session
      → (sync_once env count c).1 ≡ done (operations, has_more)
      → IsTaken c.session.sync_state operations (sync_once env count c).0
  unfolding sync_once throw
  sync_once-saved count c operations has_more undo h = go (is_positive count) undo h
    where
      synced : Act M (List Operation × Bool)
      synced = request_sync env count >>= λ (state, value). accept env state value

      go :
          (b : Bool)
          → Undoes ((if not b then throw (own bad_count) else synced) c).0.session
          → ((if not b then throw (own bad_count) else synced) c).1 ≡ done (operations, has_more)
          → IsTaken c.session.sync_state operations
              ((if not b then throw (own bad_count) else synced) c).0
      go false u k = cc
      go true u k =
          let (asked, got, whole) =
            >>=-done (request_sync env count) (λ (state, value). accept env state value) c k in
          let c' = (request_sync env count c).0 in
          subst (λ r. IsTaken c.session.sync_state operations r.0) (sym whole)
            (subst (λ old. IsTaken old operations (accept env asked.0 asked.1 c').0)
              (request_sync-state count c asked got)
              (accept-IsTaken asked.0 asked.1 c' operations has_more
                (subst (λ r. Undoes r.0.session) whole u) (sym (ap (λ r. r.1) whole) ∙ k)))
