-- ===== src/Client/Packets/Conversation/Answers.antt =====
-- The conversation of a player with its worker: every request is answered, and the two stay in step.
use world_boss_raid.Base.{
  ℕ, ◌≡◌, refl, sym, ap, ◌∙◌, Bool, true, false, List, [], ◌∷◌, Bool-cases, inl, inr, arith, All,
}
use world_boss_raid.Protocol.Wire.{IsInt32}
use world_boss_raid.GameState.Invariant.{IsValid}
use world_boss_raid.GameState.Streak.{CanGrow}
use world_boss_raid.Net.{Os}
use world_boss_raid.Net.Laws.{Incoming, Delivers, Accepts}
use world_boss_raid.Security.ReplayProtection.{replay_protection_validate}
use world_boss_raid.Security.ReplayProtection.Order.{next_seq, validate-next_seq}
use world_boss_raid.Handler.Session.{Worker, next, turn}
use world_boss_raid.Handler.Session.Answering.{IsArriving, turn-heartbeat, turn-attack}
use world_boss_raid.Client.Packets.{
  Link, exchange, net_attack_and_get_state, net_heartbeat_get_state,
}
use world_boss_raid.Client.Packets.Received.{get_state}
use world_boss_raid.Client.Packets.RoundTrip.{IsServed, heartbeat_round_trip, attack_round_trip}
use world_boss_raid.Client.Packets.Conversation.{
  InSync, Exchange, after_turn, finding, served_by, IsCarried, service, IsAnswered, Fits,
  AreCarried, AreAnswered,
}

-- Every exchange takes one number, however it ends.
exchange-g_seq_num :
    (os : Os) (fuel opcode : ℕ) (payload : List ℕ) (payload_size expected : ℕ) (c : Link os.Env)
    → (exchange os fuel opcode payload payload_size expected c).1.g_seq_num ≡ next_seq c.g_seq_num
unfolding exchange
exchange-g_seq_num os fuel opcode payload payload_size expected c = ground arith

get_state-g_seq_num :
    (os : Os) (is_attack : Bool) (fuel : ℕ) (c : Link os.Env)
    → (get_state os is_attack fuel c).1.g_seq_num ≡ next_seq c.g_seq_num
unfolding net_attack_and_get_state net_heartbeat_get_state
get_state-g_seq_num os true fuel c = exchange-g_seq_num os fuel _ _ _ _ c
get_state-g_seq_num os false fuel c = exchange-g_seq_num os fuel _ _ _ _ c

module _ (os : Os) (io : Incoming os) (delivers : Delivers os io) (outgoing : os.Env → List ℕ)
    (accepts : Accepts os outgoing) (fuel : ℕ) (cos : Os) (cio : Incoming cos)
    (cdelivers : Delivers cos cio) (cfuel : ℕ) where
  IsCarried-IsArriving :
      (x : Exchange os io delivers outgoing accepts fuel cos cio cdelivers cfuel)
      (w : Worker os.Env) (c : Link cos.Env)
      → InSync w c
      → IsCarried os io delivers outgoing accepts fuel cos cio cdelivers cfuel x w c
      → IsArriving os io delivers outgoing accepts fuel
          (finding os io delivers outgoing accepts fuel cos cio cdelivers cfuel x w)
          c.g_seq_num
          x.rest
          x.is_attack
  IsCarried-IsArriving x w c s v = record {
    fits = rw s.ahead (omega arith);
    alive = v.alive;
    opened = v.opened;
    ready = v.ready;
    fresh = rw (s.ahead, validate-next_seq w.rp s.started s.fits);
    arrives = v.arrives;
    fuelled = v.covered;
    allowed = v.allowed;
  }

  -- What a turn leaves, whichever the request is.
  turned_by :
      (x : Exchange os io delivers outgoing accepts fuel cos cio cdelivers cfuel)
      (w : Worker os.Env) (c : Link cos.Env)
      → InSync w c
      → IsCarried os io delivers outgoing accepts fuel cos cio cdelivers cfuel x w c
      → let w' = served_by os io delivers outgoing accepts fuel cos cio cdelivers cfuel x w in
        (turn os fuel (finding os io delivers outgoing accepts fuel cos cio cdelivers cfuel x w)
          ≡ next w')
        × (w'.rp ≡ (replay_protection_validate c.g_seq_num w.rp).1)
        × (w'.username ≡ w.username)
        × (w'.game
            ≡ (service os io delivers outgoing accepts fuel cos cio cdelivers cfuel x.is_attack
                w'.last_heartbeat
                (finding os io delivers outgoing accepts fuel cos cio cdelivers cfuel x w)).0)
  turned_by x w c s v =
      let a = IsCarried-IsArriving x w c s v in
      elim (Bool-cases x.is_attack) [
        | inl e ↦
            let (w2, t, g, _, rp, name) =
              turn-attack os io delivers outgoing accepts fuel
                (finding os io delivers outgoing accepts fuel cos cio cdelivers cfuel x w)
                c.g_seq_num x.rest (rw e at a) in
            let same : w2
                ≡ served_by os io delivers outgoing accepts fuel cos cio cdelivers cfuel x w =
              sym (ap (after_turn w) t) in
            (rw same at t, rw same at rp, rw same at name, rw e (rw same at g))
        | inr e ↦
            let (w2, t, g, _, rp, name) =
              turn-heartbeat os io delivers outgoing accepts fuel
                (finding os io delivers outgoing accepts fuel cos cio cdelivers cfuel x w)
                c.g_seq_num x.rest (rw e at a) in
            let same : w2
                ≡ served_by os io delivers outgoing accepts fuel cos cio cdelivers cfuel x w =
              sym (ap (after_turn w) t) in
            (rw same at t, rw same at rp, rw same at name, rw e (rw same at g))
      ]

  -- After an exchange the two are in step.
  turned_by-InSync :
      (x : Exchange os io delivers outgoing accepts fuel cos cio cdelivers cfuel)
      (w : Worker os.Env) (c : Link cos.Env)
      → InSync w c
      → IsCarried os io delivers outgoing accepts fuel cos cio cdelivers cfuel x w c
      → InSync
          (served_by os io delivers outgoing accepts fuel cos cio cdelivers cfuel x w)
          (get_state cos x.is_attack cfuel c).1
  turned_by-InSync x w c s v =
      let (_, rp, _, _) = turned_by x w c s v in
      let seq = get_state-g_seq_num cos x.is_attack cfuel c in
      let passed = validate-next_seq w.rp s.started s.fits in
      let rp1 : (served_by os io delivers outgoing accepts fuel cos cio cdelivers cfuel x w).rp
          ≡ record { last_seq_num = next_seq w.rp.last_seq_num; initialized = true } =
        rp ∙ ap (λ n. (replay_protection_validate n w.rp).1) s.ahead ∙ ap (λ r. r.1) passed in
      record {
        started = ap (λ r. r.initialized) rp1;
        fits = rw rp1 (omega arith);
        ahead = seq ∙ rw (rp1, s.ahead) refl;
      }

  turned_by-IsAnswered :
      (x : Exchange os io delivers outgoing accepts fuel cos cio cdelivers cfuel)
      (w : Worker os.Env) (c : Link cos.Env)
      → InSync w c
      → IsValid x.game
      → IsInt32 x.game.online_count
      → All CanGrow x.game.players
      → IsCarried os io delivers outgoing accepts fuel cos cio cdelivers cfuel x w c
      → IsAnswered os io delivers outgoing accepts fuel cos cio cdelivers cfuel x w c
  turned_by-IsAnswered x w c s valid online growing v =
      let (t, rp, name, g) = turned_by x w c s v in
      let a = IsCarried-IsArriving x w c s v in
      let served : IsServed os io delivers outgoing accepts fuel
          (finding os io delivers outgoing accepts fuel cos cio cdelivers cfuel x w)
          (served_by os io delivers outgoing accepts fuel cos cio cdelivers cfuel x w) x.rest cos
          cio cdelivers cfuel c x.crest x.is_attack =
        record {
          arriving = a;
          turned = t;
          taken = v.taken;
          returned = v.returned;
          fuelled = v.fuelled;
        } in
      (
        t,
        name,
        g,
        elim (Bool-cases x.is_attack) [
          | inl e ↦
              rw e
                (attack_round_trip os io delivers outgoing accepts fuel
                  (finding os io delivers outgoing accepts fuel cos cio cdelivers cfuel x w)
                  (served_by os io delivers outgoing accepts fuel cos cio cdelivers cfuel x w)
                  x.rest cos cio cdelivers cfuel c x.crest valid online growing (rw e at served)).1
          | inr e ↦ rw e (
              heartbeat_round_trip os io delivers outgoing accepts fuel
                (finding os io delivers outgoing accepts fuel cos cio cdelivers cfuel x w)
                (served_by os io delivers outgoing accepts fuel cos cio cdelivers cfuel x w) x.rest
                cos cio cdelivers cfuel c x.crest valid online (rw e at served))
        ],
      )

  pub conversation-AreAnswered :
      (xs : List (Exchange os io delivers outgoing accepts fuel cos cio cdelivers cfuel))
      (w : Worker os.Env) (c : Link cos.Env)
      → InSync w c
      → All (Fits os io delivers outgoing accepts fuel cos cio cdelivers cfuel) xs
      → AreCarried os io delivers outgoing accepts fuel cos cio cdelivers cfuel xs w c
      → AreAnswered os io delivers outgoing accepts fuel cos cio cdelivers cfuel xs w c
  conversation-AreAnswered [] w c s fit v = s
  conversation-AreAnswered (x ∷ xs) w c s fit v =
      let (valid, online, growing) = fit.0 in
      (
        turned_by-IsAnswered x w c s valid online growing v.0,
        conversation-AreAnswered xs
            (served_by os io delivers outgoing accepts fuel cos cio cdelivers cfuel x w)
            (get_state cos x.is_attack cfuel c).1 (turned_by-InSync x w c s v.0) fit.1 v.1,
      )
