-- ===== src/NetworkClient/Watch/Silence.antt =====
-- When the user of a client of NetworkClient.cpp is told that its connection is lost.
use parlo_plus_plus.Common.{
  ℕ, zero, suc, ◌≤◌, ◌<◌, ◌≡◌, refl, sym, ap, ◌∙◌, Bool, true, false, List, [], ◌∷◌, ◌++◌,
  if◌then◌else◌, ltb, length, length-append, All, Bool-cases, inl, inr, arith,
}
use mathlib.Core.Logic.{◌↔◌}
use parlo_plus_plus.Common.Int.{ℤ}
use parlo_plus_plus.Packet.{Packet}
use parlo_plus_plus.NetworkClient.{
  Platform, Client, returns, Notice, server_disconnected, client_disconnected, connection_lost,
  received_heartbeat, received_data,
}
use parlo_plus_plus.NetworkClient.MissedHeartbeats.{IsWatched, copies}
use parlo_plus_plus.NetworkClient.Watch.{Pulse, silent, heard, watch, IsReadable, news}
use parlo_plus_plus.NetworkClient.Watch.Steps.{watch-Watched}

-- Whether a loss is among the notices.
unfoldable pub tells_loss : List Notice → Bool
tells_loss [] = false
tells_loss (connection_lost ∷ ns) = true
tells_loss (server_disconnected ∷ ns) = tells_loss ns
tells_loss (client_disconnected ∷ ns) = tells_loss ns
tells_loss (received_heartbeat ∷ ns) = tells_loss ns
tells_loss (received_data p ∷ ns) = tells_loss ns

-- Seven checks in a row, somewhere.
pub record HasSilence (es : List Pulse) : Type 0 where
  pub before : List Pulse
  pub after : List Pulse
  pub whole : es ≡ before ++ (copies 7 silent ++ after)

HasSilence-cons : (e : Pulse) (es : List Pulse) → HasSilence es → HasSilence (e ∷ es)
HasSilence-cons e es s = record {
  before = e ∷ s.before;
  after = s.after;
  whole = ap (◌∷◌ e) s.whole;
}

-- Fewer checks before a heartbeat are no silence.
heard_early :
    (n m : ℕ) (now : ℤ) (p : Packet) (es after : List Pulse)
    → n < m
    → copies n silent ++ (heard now p ∷ es) ≡ copies m silent ++ after
    → ⊥
heard_early zero zero now p es after h e = absurd (omega arith)
heard_early zero (suc m) now p es after h e = cc (e)
heard_early (suc n) zero now p es after h e = absurd (omega arith)
heard_early (suc n) (suc m) now p es after h e =
    heard_early n m now p es after (omega arith) (cc (e))

behind_heard :
    (n : ℕ) (now : ℤ) (p : Packet) (es before after : List Pulse)
    → n ≤ 6
    → copies n silent ++ (heard now p ∷ es) ≡ before ++ (copies 7 silent ++ after)
    → HasSilence es
behind_heard n now p es [] after h e = absurd (heard_early n 7 now p es after (omega arith) e)
behind_heard zero now p es (x ∷ xs) after h e = record {
  before = xs;
  after = after;
  whole = cc (e);
}
behind_heard (suc n) now p es (x ∷ xs) after h e =
    behind_heard n now p es xs after (omega arith) (cc (e))

copies-next :
    (n : ℕ) (es : List Pulse) → copies n silent ++ (silent ∷ es) ≡ copies (suc n) silent ++ es
copies-next zero es = refl
copies-next (suc n) es = ap (◌∷◌ silent) (copies-next n es)

length-copies : (n : ℕ) → length (copies n silent ++ []) ≡ n
length-copies zero = refl
length-copies (suc n) = omega (arith, length-copies n)

few_checks : (n : ℕ) → n ≤ 6 → HasSilence (copies n silent ++ []) → ⊥
few_checks n h s = absurd (
    omega (
      arith,
      length-copies n,
      ap length s.whole,
      length-append s.before (copies 7 silent ++ s.after),
    ))

copies-HasSilence : (n : ℕ) (es : List Pulse) → HasSilence es → HasSilence (copies n silent ++ es)
copies-HasSilence zero es s = s
copies-HasSilence (suc n) es s = HasSilence-cons silent _ (copies-HasSilence n es s)

tells_loss_heartbeat :
    (handled : Bool) (ns : List Notice)
    → tells_loss (if handled then received_heartbeat ∷ ns else ns) ≡ tells_loss ns
unfolding tells_loss
tells_loss_heartbeat true ns = refl
tells_loss_heartbeat false ns = refl

news_below :
    (handled : Bool) (n : ℕ) (es : List Pulse)
    → ltb n 6 ≡ true
    → news handled n (silent ∷ es) ≡ news handled (suc n) es
unfolding news
news_below handled n es below = rw below (ap (λ k. news handled k es) (omega arith))

news-silence :
    (handled : Bool) (n : ℕ) (es : List Pulse)
    → n ≤ 6
    → tells_loss (news handled n es) ≡ true
    → HasSilence (copies n silent ++ es)
unfolding news
news-silence handled n [] h e = absurd (unfold tells_loss in cc (e))
news-silence handled n (silent ∷ es) h e = elim (Bool-cases (ltb n 6)) [
  | inl below ↦ rw (copies-next n es) (
      news-silence handled (suc n) es (ground arith)
        (sym (ap tells_loss (news_below handled n es below)) ∙ e))
  | inr at_six ↦
      let six : n ≡ 6 = ground (arith, h) in
      record { before = []; after = es; whole = ap (λ k. copies k silent ++ (silent ∷ es)) six }
]
news-silence handled n (heard now p ∷ es) h e = copies-HasSilence n _ (
    HasSilence-cons _ es (
      news-silence handled 0 es (omega arith)
        (sym (tells_loss_heartbeat handled (news handled 0 es)) ∙ e)))

silence-news :
    (handled : Bool) (n : ℕ) (es : List Pulse)
    → n ≤ 6
    → HasSilence (copies n silent ++ es)
    → tells_loss (news handled n es) ≡ true
unfolding news
silence-news handled n [] h s = absurd (few_checks n h s)
silence-news handled n (silent ∷ es) h s = elim (Bool-cases (ltb n 6)) [
  | inl below ↦
      ap tells_loss (news_below handled n es below)
      ∙ silence-news handled (suc n) es (ground arith) (rw (← copies-next n es) s)
  | inr at_six ↦ rw at_six (unfold tells_loss in refl)
]
silence-news handled n (heard now p ∷ es) h s =
    tells_loss_heartbeat handled (news handled 0 es)
    ∙ silence-news handled 0 es (omega arith) (behind_heard n now p es s.before s.after h s.whole)

-- Let a client be watched, with no missed heartbeat, alive, and nothing told to its user, and let
-- checks and heartbeats that the reader takes come in any order. No handler throws, and the user is
-- told of a lost connection exactly if there are seven checks in a row with no heartbeat in between.
pub watch_loses :
    (pf : Platform) (es : List Pulse) (c : Client)
    → IsWatched c
    → c.missed_heartbeats ≡ 0
    → c.is_alive ≡ true
    → c.notices ≡ []
    → All IsReadable es
    → ((watch pf es (c, returns)).1 ≡ returns)
      × ((tells_loss (watch pf es (c, returns)).0.notices ≡ true) ↔ HasSilence es)
watch_loses pf es c w none alive quiet h =
    let done = watch-Watched pf es c (record { watched = w; living = alive ∙ rw none refl }) h in
    let told : (watch pf es (c, returns)).0.notices ≡ news c.on_received_heartbeat 0 es =
      done.told ∙ rw (quiet, none) refl in
    (
      done.back,
      (
        λ e. news-silence c.on_received_heartbeat 0 es (omega arith) (ap tells_loss (sym told) ∙ e),
        λ s. ap tells_loss told ∙ silence-news c.on_received_heartbeat 0 es (omega arith) s,
      ),
    )
