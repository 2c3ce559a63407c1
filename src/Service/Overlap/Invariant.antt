-- ===== src/Service/Overlap/Invariant.antt =====
-- What holds between overlapping requests that keep out of each other's way
-- (internal/service/service.go): a room whose loops run is in the map.
use go_live_transcription.Prelude.{
  ℕ, ◌+◌, ◌≤◌, ◌<◌, String, eq_iff, eq_refl, ◌≡◌, ◌≢◌, sym, ◌∙◌, subst, true, false, Option, none,
  some, nat_eq, nat_eq_iff, arith, Bool-cases, inl, inr,
}
use go_live_transcription.GoMap.{lookup, insert, delete}
use go_live_transcription.GoMap.Laws.{lookup-insert, lookup-delete}
use go_live_transcription.Signaling.Messages.{HpbSettings}
use go_live_transcription.Signaling.Connect.{ConnectError}
use go_live_transcription.Translation.Meta.{new_meta_translator}
use go_live_transcription.Service.Application.{RoomState}
use go_live_transcription.Service.Request.{Endpoints, new_room}
use go_live_transcription.Service.Overlap.{
  Phase, building, connecting, Request, System, put, active,
}

-- The token of the room behind a pointer.
abbrev pub owner : (ℕ → RoomState) → ℕ → String
owner heap p = (heap p).meta.room_token

-- A change of the rooms that keeps their tokens and starts no loops.
abbrev pub Tame : (ℕ → RoomState) → (ℕ → RoomState) → Type 0
Tame old new =
    (p : ℕ) → (owner new p ≡ owner old p) × ((new p).running ≡ true → (old p).running ≡ true)

module _ (request : ℕ → Request) where
  pub record Inv (s : System) : Type 0 where
    pub known : (p : ℕ) → (s.heap p).running ≡ true → lookup (owner s.heap p) s.rooms ≡ some p
    pub fresh : (p : ℕ) → s.next ≤ p → (s.heap p).running ≡ false
    pub owned :
        (t : String) (p : ℕ) → lookup t s.rooms ≡ some p → (owner s.heap p ≡ t) × (p < s.next)
    pub gap : (i : ℕ) → s.phases i ≡ building → lookup (request i).token s.rooms ≡ none
    pub linked :
        (i p n : ℕ) (e : Option ConnectError)
        → s.phases i ≡ connecting p n e
        → (owner s.heap p ≡ (request i).token)
          × (p < s.next)
          × ((q : ℕ) → lookup (request i).token s.rooms ≡ some q → q ≡ p)
    pub alone :
        (i j : ℕ)
        → active (s.phases i) ≡ true
        → active (s.phases j) ≡ true
        → (request i).token ≡ (request j).token
        → i ≡ j

  pub Tame-Inv :
      (s : System) (h : ℕ → RoomState) → Tame s.heap h → Inv s → Inv (record s { heap = h })
  Tame-Inv s h t v = record {
    known = λ p r. subst (λ k. lookup k s.rooms ≡ some p) (sym ((t p).0)) (v.known p ((t p).1 r));
    fresh = λ p b. ground (arith, v.fresh p b, t p, Bool-cases (h p).running);
    owned = λ k p e. ((t p).0 ∙ (v.owned k p e).0, (v.owned k p e).1);
    gap = v.gap;
    linked = λ i p n e c. let (o, b, q) = v.linked i p n e c in ((t p).0 ∙ o, b, q);
    alone = v.alone;
  }

  -- A request comes to its end, or stays out.
  pub rest-Inv :
      (i : ℕ) (x : Phase) (s : System)
      → active x ≡ false
      → Inv s
      → Inv (record s { phases = put i x s.phases })
  rest-Inv i x s a v = record {
    known = v.known;
    fresh = v.fresh;
    owned = v.owned;
    gap = λ j e. ground (arith, a, e, v.gap j);
    linked = λ j p n e c. elim (Bool-cases (nat_eq j i)) [
      | inl same ↦ absurd (ground (arith, a, c, same))
      | inr other ↦ v.linked j p n e (ground (arith, c, other))
    ];
    alone = λ j k b c e. ground (arith, a, b, c, e, v.alone j k);
  }

  -- A request has found no room and no other one is under way for it.
  pub building-Inv :
      (i : ℕ) (s : System)
      → lookup (request i).token s.rooms ≡ none
      → ((j : ℕ) → active (s.phases j) ≡ true → (request j).token ≢ (request i).token)
      → Inv s
      → Inv (record s { phases = put i building s.phases })
  building-Inv i s free out v = record {
    known = v.known;
    fresh = v.fresh;
    owned = v.owned;
    gap = λ j e. ground (arith, e, free, nat_eq_iff j i, v.gap j);
    linked = λ j p n e c. elim (Bool-cases (nat_eq j i)) [
      | inl same ↦ absurd (ground (arith, c, same))
      | inr other ↦ v.linked j p n e (ground (arith, c, other))
    ];
    alone = λ j k b c e.
        ground (arith, b, c, e, nat_eq_iff j i, nat_eq_iff k i, out j, out k, v.alone j k);
  }

  -- A request goes on with the room that it has.
  pub retry-Inv :
      (i p n m : ℕ) (last e : Option ConnectError) (s : System)
      → s.phases i ≡ connecting p n last
      → Inv s
      → Inv (record s { phases = put i (connecting p m e) s.phases })
  retry-Inv i p n m last e s here v =
      let mine = v.linked i p n last here in
      record {
        known = v.known;
        fresh = v.fresh;
        owned = v.owned;
        gap = λ j b. ground (arith, b, v.gap j);
        linked = λ j q k f c. elim (Bool-cases (nat_eq j i)) [
          | inl same ↦
              let i_is_j : i ≡ j = ground (arith, same, nat_eq_iff j i) in
              let p_is_q : p ≡ q = ground (arith, c, same) in
              subst
                (λ x.
                  (owner s.heap x ≡ (request j).token)
                  × (x < s.next)
                  × ((r : ℕ) → lookup (request j).token s.rooms ≡ some r → r ≡ x))
                p_is_q
                (subst
                  (λ x.
                    (owner s.heap p ≡ (request x).token)
                    × (p < s.next)
                    × ((r : ℕ) → lookup (request x).token s.rooms ≡ some r → r ≡ p))
                  i_is_j mine)
          | inr other ↦ v.linked j q k f (ground (arith, c, other))
        ];
        alone =
            λ j k b c f. ground (arith, here, b, c, f, nat_eq_iff j i, nat_eq_iff k i, v.alone j k);
      }

  -- The entry of rooms whose loops are stopped is deleted.
  pub delete-Inv :
      (t : String) (s : System)
      → ((q : ℕ) → lookup t s.rooms ≡ some q → (s.heap q).running ≡ false)
      → Inv s
      → Inv (record s { rooms = delete t s.rooms })
  delete-Inv t s stopped v = record {
    known = λ p r. ground (
      arith,
      r,
      v.known p r,
      stopped p,
      eq_iff t (owner s.heap p),
      lookup-delete t (owner s.heap p) s.rooms,
    );
    fresh = v.fresh;
    owned = λ k p e. ground (arith, e, lookup-delete t k s.rooms, v.owned k p);
    gap = λ i e. ground (arith, lookup-delete t (request i).token s.rooms, v.gap i e);
    linked = λ i p n e c.
        let (o, b, q) = v.linked i p n e c in
        (o, b, λ r l. ground (arith, l, lookup-delete t (request i).token s.rooms, q r));
    alone = v.alone;
  }

  -- A request puts its room in the map.
  pub install-Inv :
      (ends : Endpoints) (settings : HpbSettings) (i : ℕ) (s : System)
      → s.phases i ≡ building
      → Inv s
      → let q = request i in
        Inv (record s {
          heap = put s.next (new_room ends settings q.token q.lang) s.heap;
          rooms = insert q.token s.next s.rooms;
          next = s.next + 1;
          phases = put i (connecting s.next 5 none) s.phases;
        })
  unfolding new_meta_translator
  install-Inv ends settings i s here v =
      let q = request i in
      record {
        known = λ p r. ground (
          arith,
          r,
          v.known p,
          v.gap i here,
          nat_eq_iff p s.next,
          eq_iff q.token (owner s.heap p),
          eq_refl q.token,
          lookup-insert q.token q.token s.next s.rooms,
          lookup-insert q.token (owner s.heap p) s.next s.rooms,
        );
        fresh = λ p b. ground (arith, b, v.fresh p);
        owned = λ k p e. ground (
          arith,
          e,
          v.owned k p,
          nat_eq_iff p s.next,
          eq_iff q.token k,
          lookup-insert q.token k s.next s.rooms,
        );
        gap = λ j e. ground (
          arith,
          e,
          here,
          nat_eq_iff j i,
          v.gap j,
          v.alone i j,
          eq_iff q.token (request j).token,
          lookup-insert q.token (request j).token s.next s.rooms,
        );
        linked = λ j p n e c. elim (Bool-cases (nat_eq j i)) [
          | inl same ↦
              let i_is_j : i ≡ j = ground (arith, same, nat_eq_iff j i) in
              let p_is_next : p ≡ s.next = ground (arith, c, same) in
              let at_j = lookup-insert q.token (request j).token s.next s.rooms in
              (
                ground (arith, i_is_j, p_is_next, nat_eq_iff p s.next),
                ground (arith, p_is_next),
                λ r l. ground (arith, l, i_is_j, p_is_next, at_j, eq_refl q.token),
              )
          | inr other ↦
              let old : s.phases j ≡ connecting p n e = ground (arith, c, other) in
              let (o, b, only) = v.linked j p n e old in
              let at_j = lookup-insert q.token (request j).token s.next s.rooms in
              (
                ground (arith, o, b, nat_eq_iff p s.next),
                ground (arith, b),
                λ r l. ground (
                  arith,
                  l,
                  here,
                  old,
                  other,
                  at_j,
                  only r,
                  nat_eq_iff j i,
                  v.alone i j,
                  eq_iff q.token (request j).token,
                ),
              )
        ];
        alone =
            λ j k b c f. ground (arith, here, b, c, f, nat_eq_iff j i, nat_eq_iff k i, v.alone j k);
      }
