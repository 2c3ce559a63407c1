-- ===== src/Signaling/Targets.antt =====
-- Who receives transcripts (internal/signaling/client.go): targets are sessions of the signaling
-- server (HPB), requested by Nextcloud session; a request for a session that is not known yet waits.
use go_live_transcription.Prelude.{
  String, ◌==◌, Bool, false, not, ◌&&◌, Option, none, some, List, [], ◌∷◌, if◌then◌else◌,
}
use go_live_transcription.GoMap.{GoMap, lookup, insert, delete, add, keys}
use go_live_transcription.Signaling.Messages.{SignalingMessage, typed, typed_payload}
use go_live_transcription.Signaling.Client.{
  SpreedClient, Transcript, cancel_deferred_close, start_if_no_target, send_message,
}

unfoldable pub add_target : String → SpreedClient → SpreedClient
add_target nc c =
    let d = cancel_deferred_close c in
    elim (lookup nc d.nc_sid_map) [
      | none ↦ record d { nc_sid_wait_stash = add nc d.nc_sid_wait_stash }
      | some hpb ↦ record d {
        nc_sid_wait_stash = delete nc d.nc_sid_wait_stash;
        targets = add hpb d.targets;
      }
    ]

-- `delete(sc.targets, sid)` and the test below it, common to the two removals.
unfoldable pub drop_target : String → SpreedClient → SpreedClient
unfolding start_if_no_target
drop_target hpb c = start_if_no_target (record c { targets = delete hpb c.targets })

unfoldable pub remove_target : String → SpreedClient → SpreedClient
unfolding drop_target
remove_target nc c =
    let d = record c { nc_sid_wait_stash = delete nc c.nc_sid_wait_stash } in
    elim (lookup nc d.nc_sid_map) [ none ↦ d | some hpb ↦ drop_target hpb d ]

unfoldable pub remove_target_by_hpb_sid : String → SpreedClient → SpreedClient
unfolding drop_target
remove_target_by_hpb_sid hpb c = drop_target hpb c

-- A read of a Go map at a key that is missing gives the empty text.
abbrev pub or_empty : Option String → String
or_empty none = ""
or_empty (some s) = s

unfoldable pub resolve_nc_session_id : String → SpreedClient → String
resolve_nc_session_id nc c = or_empty (lookup nc c.nc_sid_map)

-- `hpbToNc`: the loop that turns `ncSidMap` round, over the entries in the order of their visit.
unfoldable pub reverse_map : GoMap String → GoMap String → GoMap String
reverse_map acc [] = acc
reverse_map acc ((nc, hpb) ∷ m) = reverse_map (insert hpb nc acc) m

-- The message that carries a transcript to one target.
unfoldable pub transcript_message : Transcript → String → SignalingMessage
transcript_message t hpb = record (typed "message") {
  message = some (record {
    recipient = some (record { type = "session"; session_id = hpb });
    sender = none;
    body = some (record (typed_payload "transcript") {
      final = some t.final;
      lang_id = t.lang_id;
      message = t.message;
      speaker_session_id = t.speaker_session_id;
    });
  });
}

-- Whether the send loop skips a target: `exclude` is the optional predicate `excludeNcSid`.
unfoldable pub skips : Option (String → Bool) → GoMap String → String → Bool
skips none nc_sid_map hpb = false
skips (some exclude) nc_sid_map hpb =
    let nc = or_empty (lookup hpb (reverse_map [] nc_sid_map)) in not (nc == "") && exclude nc

-- The send loop over the targets that were copied under the lock.
unfoldable pub send_to :
    Transcript → Option (String → Bool) → GoMap String → List String → SpreedClient → SpreedClient
send_to t exclude nc_sid_map [] c = c
send_to t exclude nc_sid_map (hpb ∷ rest) c =
    send_to t exclude nc_sid_map rest
      (if skips exclude nc_sid_map hpb then c else send_message (transcript_message t hpb) c)

unfoldable pub send_transcript : Transcript → Option (String → Bool) → SpreedClient → SpreedClient
unfolding send_to
send_transcript t exclude c = send_to t exclude c.nc_sid_map (keys c.targets) c
