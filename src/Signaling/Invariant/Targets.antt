-- ===== src/Signaling/Invariant/Targets.antt =====
-- The operations on targets keep the client's invariant.
use go_live_transcription.Prelude.{
  String, eq_iff, Bool, Option, List, [], ◌∷◌, arith, Option-cases, inl, inr,
}
use go_live_transcription.GoMap.{GoMap, lookup, delete}
use go_live_transcription.GoMap.Laws.{has-insert, has-delete}
use go_live_transcription.Signaling.Client.{SpreedClient, Transcript, cancel_deferred_close}
use go_live_transcription.Signaling.Targets.{
  add_target, drop_target, remove_target, send_to, transcript_message,
}
use go_live_transcription.Signaling.Invariant.Client.{
  Inv, send-Inv, cancel-Inv, start_if_no_target-Inv,
}

module _ (nc : String) where
  pub drop_target-Inv : (hpb : String) (c : SpreedClient) → Inv nc c → Inv nc (drop_target hpb c)
  unfolding drop_target
  drop_target-Inv hpb c v =
      let d = record c { targets = delete hpb c.targets } in
      let w : Inv nc d = record {
        numbered = v.numbered;
        waits = v.waits;
        one_timer = v.one_timer;
        closed = v.closed;
      } in
      start_if_no_target-Inv nc d w

  pub add_target-Inv : (k : String) (c : SpreedClient) → Inv nc c → Inv nc (add_target k c)
  unfolding add_target
  add_target-Inv k c v =
      let d = cancel_deferred_close c in
      ground (
        arith,
        cancel-Inv nc c v,
        has-insert k nc tt d.nc_sid_wait_stash,
        has-delete k nc d.nc_sid_wait_stash,
        eq_iff k nc,
      )

  pub remove_target-Inv : (k : String) (c : SpreedClient) → Inv nc c → Inv nc (remove_target k c)
  unfolding remove_target
  remove_target-Inv k c v =
      let d = record c { nc_sid_wait_stash = delete k c.nc_sid_wait_stash } in
      let w : Inv nc d = record {
        numbered = v.numbered;
        waits = ground (arith, has-delete k nc c.nc_sid_wait_stash);
        one_timer = v.one_timer;
        closed = v.closed;
      } in
      elim (Option-cases (lookup k c.nc_sid_map)) [
        | inl e ↦ rw (e, remove_target) w
        | inr (hpb, e) ↦ rw (e, remove_target) (drop_target-Inv hpb d w)
      ]

  pub send_to-Inv :
      (t : Transcript) (exclude : Option (String → Bool)) (m : GoMap String) (hpbs : List String)
      (c : SpreedClient)
      → Inv nc c
      → Inv nc (send_to t exclude m hpbs c)
  unfolding send_to
  send_to-Inv t exclude m [] c v = v
  send_to-Inv t exclude m (hpb ∷ rest) c v =
      send_to-Inv t exclude m rest _ (ground (arith, send-Inv nc c v (transcript_message t hpb)))
