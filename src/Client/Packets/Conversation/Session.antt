-- ===== src/Client/Packets/Conversation/Session.antt =====
-- A player's session: the join at a new worker, and the requests that follow.
use world_boss_raid.Base.{ℕ, ◌≡◌, refl, ◌∙◌, true, List, pos, ◌+ℤ◌, All}
use world_boss_raid.Base.CString.{text}
use world_boss_raid.Protocol.{GamePacket}
use world_boss_raid.Protocol.Wire.{IsInt32}
use world_boss_raid.GameState.{GameSharedData}
use world_boss_raid.Net.{Os, done}
use world_boss_raid.Net.Laws.{Incoming, Delivers, Accepts}
use world_boss_raid.Security.InputValidator.{input_validate_username}
use world_boss_raid.Handler.Session.{Worker}
use world_boss_raid.Client.Packets.{Link, send_join_and_wait_resp}
use world_boss_raid.Client.Packets.JoinTrip.{IsGreeted, join_round_trip}
use world_boss_raid.Client.Packets.Conversation.{InSync, Exchange, Fits, AreCarried, AreAnswered}
use world_boss_raid.Client.Packets.Conversation.Answers.{conversation-AreAnswered}

module _ (os : Os) (io : Incoming os) (delivers : Delivers os io) (outgoing : os.Env → List ℕ)
    (accepts : Accepts os outgoing) (fuel : ℕ) (garbage : GamePacket) (game : GameSharedData)
    (e : os.Env) (username rest : List ℕ) (w : Worker os.Env) (cos : Os) (cio : Incoming cos)
    (cdelivers : Delivers cos cio) (cfuel : ℕ) (c : Link cos.Env) (crest : List ℕ)
    (valid : input_validate_username username ≡ true) (small : IsInt32 (game.online_count +ℤ pos 1))
    (greeted : IsGreeted os io delivers outgoing accepts fuel garbage game e username rest w cos cio
      cdelivers cfuel c crest) where
  greeted-InSync : InSync w (send_join_and_wait_resp cos cfuel username c).1
  greeted-InSync =
      let (_, _, _, rp, _, seq) =
        join_round_trip os io delivers outgoing accepts fuel garbage game e username rest w cos cio
          cdelivers cfuel c crest valid small greeted in
      record { started = rw rp refl; fits = rw rp greeted.fits; ahead = seq ∙ rw rp refl }

  -- A player's session at a new worker: a join that is carried to it and back, for a name that the
  -- server allows and a number of players that leaves room in an int32_t, and then any number of
  -- heartbeats and attacks, each carried to the worker, before its timeout and within its limit of
  -- the rate, and the worker's last bytes back, while the other workers may leave in between any
  -- well-formed game whose number of players and streaks have that room. The worker has the
  -- client's name and the client gets the worker's id for it; at each request the worker stays in
  -- its loop and keeps the name, its game is then the one after the request, and the client gets
  -- exactly the state that the worker answers with; at the end the client's next number is still
  -- the one after the last that the worker has accepted.
  pub session-AreAnswered :
      (xs : List (Exchange os io delivers outgoing accepts fuel cos cio cdelivers cfuel))
      → All (Fits os io delivers outgoing accepts fuel cos cio cdelivers cfuel) xs
      → AreCarried os io delivers outgoing accepts fuel cos cio cdelivers cfuel xs w
          (send_join_and_wait_resp cos cfuel username c).1
      → let (r, c') = send_join_and_wait_resp cos cfuel username c in
        (text w.username ≡ text username)
        × (r ≡ done w.player_id)
        × AreAnswered os io delivers outgoing accepts fuel cos cio cdelivers cfuel xs w c'
  session-AreAnswered xs fit v =
      let (name, _, _, _, r, _) =
        join_round_trip os io delivers outgoing accepts fuel garbage game e username rest w cos cio
          cdelivers cfuel c crest valid small greeted in
      (
        name,
        r,
        conversation-AreAnswered os io delivers outgoing accepts fuel cos cio cdelivers cfuel xs w _
            greeted-InSync fit v,
      )
