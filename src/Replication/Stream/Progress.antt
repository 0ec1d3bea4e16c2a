-- ===== src/Replication/Stream/Progress.antt =====
-- pkg/pglogrepl/stream.go: the position that the loop keeps and reports.
use pigo.Base.{sym, ap, ◌∙◌, ◌⊎◌}
use pigo.Base.{Bool-cases, ◌≢◌, inl, inr}
use pigo.Base.Int.{◌+ℤ◌, ltℤ}
use pigo.Replication.Config.{Config}
use pigo.Base.{◌≡◌, refl}
use pigo.Base.{
  eqb, if◌then◌else◌, All-append, All, ℕ, ◌≤◌, Option, none, some, List, [], ◌∷◌, ◌++◌, arith,
}
use pigo.Base.Bytes.{Bytes}
use pigo.Base.Int.{ℤ}
use pigo.Replication.Stream.{timed_out, copy_data, failed, other_message, Received}
use pigo.Replication.Stream.{
  Environment, Turn, Streaming, Outcome, continues, returns, crashes, streaming_of, max,
  receive_copy, receive, stream_turn, stream_events, stream_start_state,
}

-- the position that a turn's data names
abbrev pub position_in : Environment → Bytes → Option ℕ
position_in env [] = none
position_in env (c ∷ rest) =
    if eqb c b'k'
    then env.keepalive rest
    else if eqb c b'w'
    then elim (env.xlog_data rest) [ none ↦ none | some (wal_start, wal) ↦ some wal_start ]
    else none

abbrev pub position_of : Environment → Received → Option ℕ
position_of env timed_out = none
position_of env failed = none
position_of env other_message = none
position_of env (copy_data bytes) = position_in env bytes

abbrev pub raised : Option ℕ → ℕ → ℕ
raised none w = w
raised (some p) w = max w p

-- the highest of the positions that the turns name, or the given one
abbrev pub highest : Environment → List Turn → ℕ → ℕ
highest env [] w = w
highest env (turn ∷ turns) w = highest env turns (raised (position_of env turn.received) w)

abbrev pub IsOrdered : List ℕ → Type 0
IsOrdered [] = Unit
IsOrdered (r ∷ rs) = All (λ q. r ≤ q) rs × IsOrdered rs

-- no report is past the position that is kept
abbrev pub IsReported : Streaming → Type 0
IsReported s = All (λ r. r ≤ s.wal_pos) s.reports × IsOrdered s.reports

IsOrdered-append :
    (rs : List ℕ) (w : ℕ) → IsOrdered rs → All (λ r. r ≤ w) rs → IsOrdered (rs ++ w ∷ [])
IsOrdered-append [] w o h = (tt, tt)
IsOrdered-append (r ∷ rs) w o h =
    (All-append (λ q. r ≤ q) rs (w ∷ []) o.0 (h.0, tt), IsOrdered-append rs w o.1 h.1)

All-raise : (rs : List ℕ) (w v : ℕ) → w ≤ v → All (λ r. r ≤ w) rs → All (λ r. r ≤ v) rs
All-raise [] w v le h = tt
All-raise (r ∷ rs) w v le h = (omega (arith, le, h.0), All-raise rs w v le h.1)

le-max : (a b : ℕ) → a ≤ max a b
le-max a b = ground arith

report-IsReported :
    (s : Streaming) (next : ℤ)
    → IsReported s
    → IsReported (record s { reports = s.reports ++ s.wal_pos ∷ []; next_standby = next })
report-IsReported s next h = (
  All-append (λ r. r ≤ s.wal_pos) s.reports (s.wal_pos ∷ []) h.0 (omega arith, tt),
  IsOrdered-append s.reports s.wal_pos h.1 h.0,
)

-- A turn's data moves the position as it names one, whatever becomes of the loop, and reports nothing.
receive_copy-moves :
    (env : Environment) (turn : Turn) (bytes : Bytes) (s : Streaming)
    → ((streaming_of (receive_copy env turn bytes s)).wal_pos
        ≡ raised (position_in env bytes) s.wal_pos)
      × ((streaming_of (receive_copy env turn bytes s)).reports ≡ s.reports)
unfolding receive_copy
receive_copy-moves env turn [] s = (refl, refl)
receive_copy-moves env turn (c ∷ rest) s = (ground arith, ground arith)

receive-moves :
    (env : Environment) (turn : Turn) (r : Received) (s : Streaming)
    → ((streaming_of (receive env turn r s)).wal_pos ≡ raised (position_of env r) s.wal_pos)
      × ((streaming_of (receive env turn r s)).reports ≡ s.reports)
unfolding receive
receive-moves env turn timed_out s = (refl, refl)
receive-moves env turn failed s = (refl, refl)
receive-moves env turn other_message s = (refl, refl)
receive-moves env turn (copy_data bytes) s = receive_copy-moves env turn bytes s

le-raised : (p : Option ℕ) (w : ℕ) → w ≤ raised p w
le-raised none w = omega arith
le-raised (some p) w = ground arith

receive-IsReported :
    (env : Environment) (turn : Turn) (r : Received) (s : Streaming)
    → IsReported s
    → IsReported (streaming_of (receive env turn r s))
receive-IsReported env turn r s h =
    let (w, e) = receive-moves env turn r s in
    rw (w, e)
      (
        All-raise s.reports s.wal_pos (raised (position_of env r) s.wal_pos)
            (le-raised (position_of env r) s.wal_pos) h.0,
        h.1,
      )

stream_turn-IsReported :
    (env : Environment) (cfg : Config) (turn : Turn) (s : Streaming)
    → IsReported s
    → IsReported (streaming_of (stream_turn env cfg turn s))
unfolding stream_turn
stream_turn-IsReported env cfg turn s h =
    let next = turn.after_status +ℤ cfg.standby_update_interval in
    elim (Bool-cases (ltℤ s.next_standby turn.now)) [
      | inr early ↦ rw early (receive-IsReported env turn turn.received s h)
      | inl due ↦ elim (Bool-cases turn.status_sent) [
        | inl ok ↦
            rw (due, ok)
              (receive-IsReported env turn turn.received
                (record s { reports = s.reports ++ s.wal_pos ∷ []; next_standby = next })
                (report-IsReported s next h))
        | inr lost ↦ rw (due, lost) (report-IsReported s s.next_standby h)
      ]
    ]

stream_events-IsReported :
    (env : Environment) (cfg : Config) (turns : List Turn) (o : Outcome)
    → IsReported (streaming_of o)
    → IsReported (streaming_of (stream_events env cfg turns o))
unfolding stream_events
stream_events-IsReported env cfg [] o h = h
stream_events-IsReported env cfg (turn ∷ turns) (continues s) h =
    stream_events-IsReported env cfg turns (stream_turn env cfg turn s)
      (stream_turn-IsReported env cfg turn s h)
stream_events-IsReported env cfg (turn ∷ turns) (returns s) h = h
stream_events-IsReported env cfg (turn ∷ turns) (crashes s) h = h

-- However a run of the loop goes and ends, the positions it has reported never go back from one report
-- to a later one, and none is past the position it keeps.
pub reports_never_go_back :
    (env : Environment) (cfg : Config) (now : ℤ) (turns : List Turn)
    → IsReported
        (streaming_of (stream_events env cfg turns (continues (stream_start_state cfg now))))
unfolding stream_start_state
reports_never_go_back env cfg now turns =
    stream_events-IsReported env cfg turns (continues (stream_start_state cfg now)) (tt, tt)

-- A turn keeps the higher of its position and the one it received, unless its report is lost.
stream_turn-moves :
    (env : Environment) (cfg : Config) (turn : Turn) (s : Streaming)
    → ((streaming_of (stream_turn env cfg turn s)).wal_pos
        ≡ raised (position_of env turn.received) s.wal_pos)
      ⊎ ((t : Streaming) × (stream_turn env cfg turn s ≡ returns t))
unfolding stream_turn
stream_turn-moves env cfg turn s =
    let next = turn.after_status +ℤ cfg.standby_update_interval in
    let told = s.reports ++ s.wal_pos ∷ [] in
    elim (Bool-cases (ltℤ s.next_standby turn.now)) [
      | inr early ↦ inl (rw early (receive-moves env turn turn.received s).0)
      | inl due ↦ elim (Bool-cases turn.status_sent) [
        | inl ok ↦ inl (
            rw (due, ok)
              (receive-moves env turn turn.received
                (record s { reports = told; next_standby = next })).0)
        | inr lost ↦ inr (record s { reports = told }, rw (due, lost) refl)
      ]
    ]

ended :
    (env : Environment) (cfg : Config) (turns : List Turn) (s t : Streaming)
    → stream_events env cfg turns (returns s) ≢ continues t
unfolding stream_events
ended env cfg [] s t e = cc
ended env cfg (turn ∷ turns) s t e = cc

stream_events-moves :
    (env : Environment) (cfg : Config) (turns : List Turn) (o : Outcome) (t : Streaming)
    → stream_events env cfg turns o ≡ continues t
    → t.wal_pos ≡ highest env turns (streaming_of o).wal_pos
unfolding stream_events
stream_events-moves env cfg [] (continues s) t e = sym (ap (λ o. (streaming_of o).wal_pos) e)
stream_events-moves env cfg [] (returns s) t e = cc
stream_events-moves env cfg [] (crashes s) t e = cc
stream_events-moves env cfg (turn ∷ turns) (returns s) t e = cc
stream_events-moves env cfg (turn ∷ turns) (crashes s) t e = cc
stream_events-moves env cfg (turn ∷ turns) (continues s) t e =
    elim (stream_turn-moves env cfg turn s) [
      | inl w ↦
          stream_events-moves env cfg turns (stream_turn env cfg turn s) t e
          ∙ ap (highest env turns) w
      | inr (u, lost) ↦ absurd (ended env cfg turns u t (rw lost at e))
    ]

-- While the loop runs, the position that it keeps is the highest that it has received in keepalive and
-- data messages, in whatever order they came.
pub kept_position_is_highest :
    (env : Environment) (cfg : Config) (now : ℤ) (turns : List Turn) (s : Streaming)
    → stream_events env cfg turns (continues (stream_start_state cfg now)) ≡ continues s
    → s.wal_pos ≡ highest env turns 0
unfolding stream_start_state
kept_position_is_highest env cfg now turns s e =
    stream_events-moves env cfg turns (continues (stream_start_state cfg now)) s e
