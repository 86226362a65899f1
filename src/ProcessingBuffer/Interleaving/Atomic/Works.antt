-- ===== src/ProcessingBuffer/Interleaving/Atomic/Works.antt =====
-- A step of the processing thread of ProcessingBuffer.cpp at work on a packet does not change what is left
-- at the end of its round.
use parlo_plus_plus.Common.{
  ℕ, suc, ◌-◌, ◌≤◌, ◌<◌, ◌≡◌, refl, sym, ap, ◌∙◌, true, false, List, [], ◌∷◌, ◌++◌, append-nil,
  append_assoc, none, Result, ok, throws, length, length-append, take, drop, arith,
}
use parlo_plus_plus.Packet.{Packet, tcp_packet}
use parlo_plus_plus.ProcessingBuffer.{
  Buffer, continues, body_size, read_header, read_header_from, hand_over, take_packet, process_body,
  header_due, Thread,
}
use parlo_plus_plus.ProcessingBuffer.Interleaving.{
  Machine, WorkMove, reads_id, no_header, reads_flag, reads_low, reads_high, no_body, starts_body,
  takes, makes, dies, hands,
}
use parlo_plus_plus.ProcessingBuffer.Interleaving.Atomic.{
  finish, high_rest, low_rest, flag_rest, body_rest, complete,
}

-- Four bytes are there, and the header is read from them.
flag_rest-read_header :
    (ps : List Packet) (b : Buffer) (x : ℕ) (xs : List ℕ)
    → header_due b ≡ true
    → b.internal_buffer ≡ x ∷ xs
    → flag_rest ps xs (record b { internal_buffer = xs; current_id = x })
      ≡ finish ps (process_body (read_header b))
unfolding flag_rest low_rest high_rest read_header
flag_rest-read_header ps b x [] due e = absurd (ground (arith, ap length e))
flag_rest-read_header ps b x (c ∷ []) due e = absurd (ground (arith, ap length e))
flag_rest-read_header ps b x (c ∷ l ∷ []) due e = absurd (ground (arith, ap length e))
flag_rest-read_header ps b x (c ∷ l ∷ h ∷ xs) due e =
    ap (λ q. finish ps (process_body (read_header_from q b))) (sym e)

take-drop_next :
    (n : ℕ) (done : List ℕ) (x : ℕ) (xs q : List ℕ)
    → length done < n
    → q ≡ x ∷ xs
    → ((done ++ (x ∷ [])) ++ take (n - length (done ++ (x ∷ []))) xs
        ≡ done ++ take (n - length done) q)
      × (drop (n - length (done ++ (x ∷ []))) xs ≡ drop (n - length done) q)
take-drop_next n done x xs q h e =
    let k : ℕ = n - length (done ++ (x ∷ [])) in
    let next : n - length done ≡ suc k = omega (arith, length-append done (x ∷ [])) in
    rw (next, e) (append_assoc done (x ∷ []) (take k xs), refl)

body_rest_next :
    (ps : List Packet) (done : List ℕ) (x : ℕ) (xs : List ℕ) (b : Buffer)
    → length done < body_size b
    → b.internal_buffer ≡ x ∷ xs
    → body_rest ps (done ++ (x ∷ [])) (record b { internal_buffer = xs }) ≡ body_rest ps done b
unfolding body_rest body_size
body_rest_next ps done x xs b h e =
    let (front, back) = take-drop_next (body_size b) done x xs b.internal_buffer h e in
    let over = λ (l q : List ℕ). finish ps (
      hand_over (record b { internal_buffer = q; has_read_header = false })
        (tcp_packet b.current_id l b.is_compressed)) in
    ap (λ l. over l (drop (body_size b - length (done ++ (x ∷ []))) xs)) front
    ∙ ap (over (done ++ take (body_size b - length done) b.internal_buffer)) back

body_rest_full :
    (ps : List Packet) (done : List ℕ) (b : Buffer) (r : Result Packet)
    → body_size b ≤ length done
    → tcp_packet b.current_id done b.is_compressed ≡ r
    → body_rest ps done b ≡ finish ps (hand_over (record b { has_read_header = false }) r)
unfolding body_rest
body_rest_full ps done b r h e =
    let none_missing : body_size b - length done ≡ 0 = omega arith in
    rw (none_missing, append-nil done, e) refl

body_rest_start : (ps : List Packet) (b : Buffer) → body_rest ps [] b ≡ finish ps (take_packet b)
unfolding body_rest take_packet
body_rest_start ps b = let whole : body_size b - 0 ≡ body_size b = omega arith in rw whole refl

finish_keeps :
    (b : Buffer) (t : Thread)
    → t.buffer ≡ b
    → t.terminated ≡ false
    → finish t.delivered (continues b none) ≡ t
unfolding finish
finish_keeps b t e alive = rw (append-nil t.delivered, alive, ← e) refl

pub WorkMove-complete :
    {m n : Machine}
    → WorkMove m n
    → m.terminated ≡ false
    → complete n.place n.thread ≡ complete m.place m.thread
unfolding complete
WorkMove-complete (reads_id m x xs at due e) alive =
    flag_rest-read_header m.delivered m.buffer x xs due e ∙ rw (at, due) refl
WorkMove-complete (no_header m at due) alive = rw (at, due) refl
WorkMove-complete (reads_flag m x xs at e) alive =
    rw at (sym (ap (λ q. flag_rest m.delivered q m.buffer) e ∙ unfold flag_rest in refl))
WorkMove-complete (reads_low m x xs at e) alive =
    rw at (sym (ap (λ q. low_rest m.delivered q m.buffer) e ∙ unfold low_rest in refl))
WorkMove-complete (reads_high m low x xs at e) alive =
    rw at (sym (ap (λ q. high_rest m.delivered low q m.buffer) e ∙ unfold high_rest in refl))
WorkMove-complete (no_body m at due) alive =
    rw at (sym (unfold process_body in rw due (finish_keeps m.buffer m.thread refl alive)))
WorkMove-complete (starts_body m at due) alive =
    rw at (unfold process_body in rw due (body_rest_start m.delivered m.buffer))
WorkMove-complete (takes m done x xs at h e) alive =
    rw at (body_rest_next m.delivered done x xs m.buffer h e)
WorkMove-complete (makes m done p at h e) alive = rw at (
    sym (
      body_rest_full m.delivered done m.buffer (ok p) h e
      ∙ unfold finish in unfold hand_over in rw alive refl))
WorkMove-complete (dies m done x at h e) alive = rw at (
    sym (
      body_rest_full m.delivered done m.buffer (throws x) h e
      ∙ unfold finish in unfold hand_over in refl))
WorkMove-complete (hands m p at) alive = rw at refl
