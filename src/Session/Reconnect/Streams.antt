-- ===== src/Session/Reconnect/Streams.antt =====
-- What Reconnect does to the active streams.
use outrelay_agent.Base.{
  sym, ℕ, ◌≡◌, ◌≢◌, refl, subst, inl, inr, ◌==◌, ==_iff, Bool, Bool-cases, Option, none, some,
  Option-cases, List, [], ◌∷◌, map, Text, nat_eq, arith,
}
use mathlib.Core.List.{Memᴰ}
use outrelay_agent.Base.Map.{Map, lookup}
use outrelay_agent.Orp.{Frame}
use outrelay_agent.Session.Wrapper.{Wrapper}
use outrelay_agent.Session.Registry.{Registry, active_streams}
use outrelay_agent.Session.Registry.Store.{Kept}
use outrelay_agent.Session.Registry.Live.{IsLive}
use outrelay_agent.Session.Resume.{resume}
use outrelay_agent.Session.Resume.Gap.{Placed, resume-Placed}
use outrelay_agent.Session.Reconnect.{
  reregister, shut, redial, Use, Redial, after_registers, after_redial, Attempt, Rejoin, rejoin,
  rejoin_all, Connection, ReconnectError, reconnect,
}
use outrelay_agent.Session.Reconnect.Rejoined.{
  Fewer, Joined, rejoined-IsLive, rejoined-Fewer, rejoined-Joined, rejoined-Kept, rejoined_stays,
}

-- The wrapper of an active stream is listed.
pub active-Mem :
    (id w : ℕ) (streams : Map ℕ ℕ)
    → lookup id streams ≡ some w
    → Memᴰ w (map (λ (e : ℕ × ℕ). e.1) streams)
unfolding lookup
active-Mem id w [] e = cc
active-Mem id w ((j, x) ∷ streams) e = elim (Bool-cases (j == id)) [
  | inl same ↦
      subst (λ y. Memᴰ y (x ∷ map (λ (e : ℕ × ℕ). e.1) streams)) (ground (arith, e, same))
        (Memᴰ.head refl)
  | inr other ↦ Memᴰ.tail (active-Mem id w streams (ground (arith, e, other)))
]

module _ (meets : ℕ → Rejoin) where
  placed :
      (w id : ℕ) (r : Wrapper)
      → Placed r
          (meets w).link.stream
          (resume id (meets w).payload (meets w).retransmit_from r (meets w).link)
  placed w id r = resume-Placed id (meets w).payload (meets w).retransmit_from r (meets w).link

  rejoin-IsLive : (s : Registry) (w : ℕ) → IsLive s → IsLive (rejoin meets s w)
  unfolding rejoin
  rejoin-IsLive s w v = elim (Option-cases (lookup w s.wrappers)) [
    | inl absent ↦ rw (absent, rejoin) v
    | inr ((id, r), stored) ↦
        rw (stored, rejoin)
          (rejoined-IsLive s w id r (meets w).link.stream
            (resume id (meets w).payload (meets w).retransmit_from r (meets w).link) v stored
            (placed w id r))
  ]

  rejoin-Fewer : (s : Registry) (w : ℕ) → Fewer (rejoin meets s w) s
  unfolding rejoin
  rejoin-Fewer s w i x = elim (Option-cases (lookup w s.wrappers)) [
    | inl absent ↦ rw (absent, rejoin) (λ e. e)
    | inr ((id, r), stored) ↦
        rw (stored, rejoin)
          (rejoined-Fewer s w id r (meets w).link.stream
            (resume id (meets w).payload (meets w).retransmit_from r (meets w).link) i x)
  ]

  rejoin-Joined :
      (s : Registry) (w id : ℕ) (r : Wrapper)
      → lookup w s.wrappers ≡ some (id, r)
      → Joined (rejoin meets s w) id w (meets w).link.stream
  unfolding rejoin
  rejoin-Joined s w id r stored =
      rw (stored, rejoin)
        (rejoined-Joined s w id r (meets w).link.stream
          (resume id (meets w).payload (meets w).retransmit_from r (meets w).link) (placed w id r))

  rejoin-Kept :
      (s : Registry) (w x id : ℕ) (n : Option ℕ)
      → w ≢ x
      → Kept s x id n
      → Kept (rejoin meets s w) x id n
  unfolding rejoin
  rejoin-Kept s w x id n other k = elim (Option-cases (lookup w s.wrappers)) [
    | inl absent ↦ rw (absent, rejoin) k
    | inr ((i, r), stored) ↦
        rw (stored, rejoin)
          (rejoined-Kept s w i r (meets w).link.stream
            (resume i (meets w).payload (meets w).retransmit_from r (meets w).link) x id n other k)
  ]

  -- The stream of the wrapper that is resumed has a new inner stream or is not listed.
  rejoin_listed :
      (s : Registry) (w id : ℕ) → IsLive s → Joined (rejoin meets s w) id w (meets w).link.stream
  rejoin_listed s w id v listed =
      let (r, stored, up) = v.live id w (rejoin-Fewer s w id w listed) in
      rejoin-Joined s w id r stored listed

  rejoin_keeps :
      (s : Registry) (w x id : ℕ)
      → IsLive s
      → Joined s id x (meets x).link.stream
      → Joined (rejoin meets s w) id x (meets x).link.stream
  rejoin_keeps s w x id v joined = elim (Bool-cases (w == x)) [
    | inl same ↦
        subst (λ y. Joined (rejoin meets s w) id y (meets y).link.stream)
          (ground (arith, same, ==_iff w x)) (rejoin_listed s w id v)
    | inr other ↦ λ listed.
        let (st, up, k) = joined (rejoin-Fewer s w id x listed) in
        (st, up, rejoin-Kept s w x id (some st) (ground (arith, other, ==_iff w x)) k)
  ]

  rejoin_all-IsLive : (ws : List ℕ) (s : Registry) → IsLive s → IsLive (rejoin_all meets s ws)
  unfolding rejoin_all
  rejoin_all-IsLive [] s v = v
  rejoin_all-IsLive (w ∷ ws) s v = rejoin_all-IsLive ws (rejoin meets s w) (rejoin-IsLive s w v)

  rejoin_all-Fewer : (ws : List ℕ) (s : Registry) → Fewer (rejoin_all meets s ws) s
  unfolding rejoin_all
  rejoin_all-Fewer [] s id x e = e
  rejoin_all-Fewer (w ∷ ws) s id x e =
      rejoin-Fewer s w id x (rejoin_all-Fewer ws (rejoin meets s w) id x e)

  rejoin_all_keeps :
      (ws : List ℕ) (s : Registry) (x id : ℕ)
      → IsLive s
      → Joined s id x (meets x).link.stream
      → Joined (rejoin_all meets s ws) id x (meets x).link.stream
  unfolding rejoin_all
  rejoin_all_keeps [] s x id v joined = joined
  rejoin_all_keeps (w ∷ ws) s x id v joined =
      rejoin_all_keeps ws (rejoin meets s w) x id (rejoin-IsLive s w v)
        (rejoin_keeps s w x id v joined)

  rejoin_all-Joined :
      (ws : List ℕ) (s : Registry) (x id : ℕ)
      → IsLive s
      → Memᴰ x ws
      → Joined (rejoin_all meets s ws) id x (meets x).link.stream
  unfolding rejoin_all
  rejoin_all-Joined [] s x id v m = elim m [ ]
  rejoin_all-Joined (w ∷ ws) s x id v (Memᴰ.head e) =
      rejoin_all_keeps ws (rejoin meets s w) x id (rejoin-IsLive s w v) (
        subst (λ y. Joined (rejoin meets s w) id y (meets y).link.stream) (sym e)
          (rejoin_listed s w id v))
  rejoin_all-Joined (w ∷ ws) s x id v (Memᴰ.tail m) =
      rejoin_all-Joined ws (rejoin meets s w) x id (rejoin-IsLive s w v) m

  -- Resume succeeds for the id, whichever wrapper it is asked for.
  abbrev pub IsResumable : ℕ → Type 0
  IsResumable id =
      (x : ℕ) (r : Wrapper)
      → (resume id (meets x).payload (meets x).retransmit_from r (meets x).link).1 ≡ none

  rejoin_stays :
      (s : Registry) (w id x : ℕ)
      → IsResumable id
      → lookup id s.streams ≡ some x
      → lookup id (rejoin meets s w).streams ≡ some x
  unfolding rejoin
  rejoin_stays s w id x fine listed = elim (Option-cases (lookup w s.wrappers)) [
    | inl absent ↦ rw (absent, rejoin) listed
    | inr ((i, r), stored) ↦
        rw (stored, rejoin)
          (rejoined_stays s w i r (meets w).link.stream
            (resume i (meets w).payload (meets w).retransmit_from r (meets w).link) id x
            (λ same.
              subst
                (λ j.
                  (resume j (meets w).payload (meets w).retransmit_from r (meets w).link).1 ≡ none)
                same (fine w r))
            listed)
  ]

  rejoin_all_stays :
      (ws : List ℕ) (s : Registry) (id x : ℕ)
      → IsResumable id
      → lookup id s.streams ≡ some x
      → lookup id (rejoin_all meets s ws).streams ≡ some x
  unfolding rejoin_all
  rejoin_all_stays [] s id x fine listed = listed
  rejoin_all_stays (w ∷ ws) s id x fine listed =
      rejoin_all_stays ws (rejoin meets s w) id x fine (rejoin_stays s w id x fine listed)

  -- The streams from before that are still listed have the inner streams that Resume opened.
  pub record AreResumed (before after : Registry) : Type 0 where
    pub live : IsLive after
    pub fewer : Fewer after before
    pub resumed : (id w : ℕ) → Joined after id w (meets w).link.stream
    pub stays :
        (id w : ℕ)
        → IsResumable id
        → lookup id before.streams ≡ some w
        → lookup id after.streams ≡ some w

  all-AreResumed : (s : Registry) → IsLive s → AreResumed s (rejoin_all meets s (active_streams s))
  unfolding active_streams
  all-AreResumed s v = record {
    live = rejoin_all-IsLive (active_streams s) s v;
    fewer = rejoin_all-Fewer (active_streams s) s;
    resumed = λ id w listed.
        rejoin_all-Joined (active_streams s) s w id v
          (active-Mem id w s.streams (rejoin_all-Fewer (active_streams s) s id w listed)) listed;
    stays = λ id w. rejoin_all_stays (active_streams s) s id w;
  }

  -- With an error the streams are as before.
  abbrev pub Settles : Registry → Option ReconnectError → Registry → Type 0
  Settles before none after = AreResumed before after
  Settles before (some e) after = after ≡ before

  after_registers-Settles :
      (s : Connection) (uses : List (Use ℕ)) (o : Option ReconnectError × List Frame)
      → IsLive s.registry
      → let out = after_registers meets s uses o in Settles s.registry out.1 out.0.registry
  unfolding after_registers
  after_registers-Settles s uses (some e, frames) v = refl
  after_registers-Settles s uses (none, frames) v = all-AreResumed s.registry v

  after_redial-Settles :
      (answer : Text → Bool × Option Frame) (s : Connection) (r : Redial)
      → IsLive s.registry
      → let out = after_redial answer meets s r in Settles s.registry out.1 out.0.registry
  unfolding after_redial
  after_redial-Settles answer s r v = elim (Option-cases r.conn) [
    | inl failed ↦ rw (failed, after_redial) refl
    | inr (c, up) ↦
        rw (up, after_redial)
          (after_registers-Settles (record s { conn = c }) (shut s.conn ∷ r.uses)
            (reregister s.exposed answer) v)
  ]

  -- Reconnect with an error, from a dial or a registration, leaves the active streams as they were.
  -- Without one, whatever each Resume meets, no stream is active that was not active before with
  -- the same wrapper, each one that is active has the inner stream that its Resume opened, and each
  -- one for whose id Resume returns no error, whatever wrapper it is asked for, is active.
  pub reconnect-Settles :
      (attempts : List Attempt) (answer : Text → Bool × Option Frame) (s : Connection)
      → IsLive s.registry
      → let out = reconnect attempts answer meets s in Settles s.registry out.1 out.0.registry
  unfolding reconnect
  reconnect-Settles [] answer s v = refl
  reconnect-Settles (a ∷ attempts) answer s v =
      after_redial-Settles answer s (redial (a ∷ attempts)) v
