-- ===== src/Consumer/Drain.antt =====
-- A request gets out: as long as the remote agent's socket takes at least a byte at each write event,
-- a bounded number of write events sends all that is pending.
use mathlib.Core.List.{append-nil}
use dubbo_service_mesh.Base.{
  ℤ, ℕ, zero, suc, ◌+◌, ◌-◌, ◌≤◌, ◌≡◌, refl, sym, ◌∙◌, ap, subst, inl, inr, ◌⊎◌, true, false, List,
  [], ◌++◌, arith, length, ◌==◌, is_neg, Bool-cases, ==_iff,
}
use dubbo_service_mesh.Pool.{Ptr}
use dubbo_service_mesh.Net.{Host, Flows, HostLaws, Streams, WriteResult-cases}
use dubbo_service_mesh.Net.Buffer.{slice, size_sub, length-slice}
use dubbo_service_mesh.Consumer.{ConnectionCa, Consumer, Handler}
use dubbo_service_mesh.Consumer.Handlers.{wrote_to_remote, on_write_to_remote_agent}
use dubbo_service_mesh.Consumer.Bounds.{IsBounded, AllBounded}
use dubbo_service_mesh.Consumer.Frame.{Rewires, abort-On}
use dubbo_service_mesh.Consumer.RequestBounds.{on_write_to_remote_agent-AllBounded}
use dubbo_service_mesh.Consumer.Relay.{pending_in}
use dubbo_service_mesh.Consumer.Delivery.{on_write_to_remote_agent-delivers}

-- The request bytes that connection `p` has not sent.
abbrev left : ConnectionCa → ℕ
left c = c.nread_in - c.nwrite_in

abbrev LeftIs : Ptr → ℕ → (Ptr → ConnectionCa) → Type 0
LeftIs p n f = left (f p) ≡ n

nothing_left : (f : Ptr → ConnectionCa) (p : Ptr) → left (f p) ≡ 0 → pending_in (f p) ≡ []
unfolding slice
nothing_left f p h = rw h refl

left-Rewires : (p : Ptr) (n : ℕ) → Rewires (LeftIs p n)
left-Rewires p n f q fd a v = elim (Bool-cases (p == q)) [
  | inl here ↦ rw here (subst (λ r. left (f r) ≡ n) ((==_iff p q).0 here) v)
  | inr there ↦ rw there v
]

module _ {E : Type 0} (net : Host Handler E) (tries : ℕ) where
  -- The connection is open, or has nothing to send.
  abbrev Ready : Ptr → Consumer E → Type 0
  Ready p s = (is_neg (s.ca p).fd ≡ false) ⊎ (left (s.ca p) ≡ 0)

  wrote_to_remote-left :
      (s : Consumer E) (p : Ptr) (fd : ℤ) (n : ℕ)
      → (left ((wrote_to_remote net tries s p fd n).ca p) ≡ left (s.ca p) - n)
        × (((wrote_to_remote net tries s p fd n).ca p).fd ≡ (s.ca p).fd)
  unfolding wrote_to_remote
  wrote_to_remote-left s p fd n =
      let self : (p == p) ≡ true = ground arith in
      elim (Bool-cases ((s.ca p).nwrite_in + n == (s.ca p).nread_in)) [
        | inl done ↦ rw (done, self) (omega arith, refl)
        | inr more ↦ rw (more, self) (omega arith, refl)
      ]

  step_left :
      (s : Consumer E) (fd : ℤ) (p : Ptr)
      → HostLaws net
      → Flows net
      → AllBounded s
      → Ready p s
      → let t = on_write_to_remote_agent net tries s fd p in
        (left (t.ca p) ≤ left (s.ca p) - 1) × Ready p t
  unfolding on_write_to_remote_agent
  step_left s fd p laws flows v ready =
      let c = s.ca p in
      let bs = slice c.buf_in c.nwrite_in (size_sub c.nread_in c.nwrite_in) in
      let s1 = record s { host = (net.write s.host fd bs).1 } in
      let b : IsBounded c = v p in
      let size : length bs ≡ left c =
        omega (arith, length-slice c.buf_in c.nwrite_in (size_sub c.nread_in c.nwrite_in)) in
      elim (Bool-cases (is_neg c.fd)) [
        | inl gone ↦ rw gone (ground arith, inr (ground arith))
        | inr live ↦ elim (Bool-cases (left c == 0)) [
          | inr some_left ↦
              let (n, e, pos) = flows.takes s.host fd bs (ground arith) in
              let (less, same) = wrote_to_remote-left s1 p fd n in
              rw (live, e, less, same) (ground arith, inl live)
          | inl nothing ↦ elim (WriteResult-cases (net.write s.host fd bs).0) [
            | inl (n, e) ↦
                let (less, same) = wrote_to_remote-left s1 p fd n in
                rw (live, e, less, same) (ground arith, inl live)
            | inr (again, e) ↦
                let empty : left c ≡ 0 = ground arith in
                elim (Bool-cases again) [
                  | inl later ↦ rw (live, e, later) (omega arith, inl live)
                  | inr error ↦
                      let none_left =
                        abort-On net tries (LeftIs p 0) (left-Rewires p 0) s1 p empty in
                      rw (live, e, error, none_left) (omega arith, inr refl)
                ]
          ]
        ]
      ]

  -- `k` write events in a row.
  abbrev pub write_events : ℕ → Consumer E → (fd : ℤ) → Ptr → Consumer E
  write_events zero s fd p = s
  write_events (suc k) s fd p = write_events k (on_write_to_remote_agent net tries s fd p) fd p

  write_events-left :
      (k : ℕ) (s : Consumer E) (fd : ℤ) (p : Ptr)
      → HostLaws net
      → Flows net
      → AllBounded s
      → Ready p s
      → left (s.ca p) ≤ k
      → left ((write_events k s fd p).ca p) ≡ 0
  write_events-left zero s fd p laws flows v ready h = omega arith
  write_events-left (suc k) s fd p laws flows v ready h =
      let (less, still) = step_left s fd p laws flows v ready in
      write_events-left k (on_write_to_remote_agent net tries s fd p) fd p laws flows
        (on_write_to_remote_agent-AllBounded net tries s fd p laws v) still (omega arith)

module _ {E : Type 0} (net : Host Handler E) (tries : ℕ) (sent : E → ℤ → List ℕ)
    (str : Streams net sent) where
  write_events-delivers :
      (k : ℕ) (s : Consumer E) (fd : ℤ) (p : Ptr)
      → HostLaws net
      → AllBounded s
      → let t = write_events net tries k s fd p in
        sent t.host fd ++ pending_in (t.ca p) ≡ sent s.host fd ++ pending_in (s.ca p)
  write_events-delivers zero s fd p laws v = refl
  write_events-delivers (suc k) s fd p laws v =
      let u = on_write_to_remote_agent net tries s fd p in
      write_events-delivers k u fd p laws
        (on_write_to_remote_agent-AllBounded net tries s fd p laws v)
      ∙ on_write_to_remote_agent-delivers net tries sent str s fd p laws (v p)

  -- Where the socket takes at least a byte at each write event, as many write events as an open
  -- connection has pending request bytes send them all: nothing is pending, and the socket has
  -- accepted exactly these bytes after what it had.
  pub write_events-drain :
      (s : Consumer E) (fd : ℤ) (p : Ptr)
      → HostLaws net
      → Flows net
      → AllBounded s
      → is_neg (s.ca p).fd ≡ false
      → let t = write_events net tries (length (pending_in (s.ca p))) s fd p in
        (pending_in (t.ca p) ≡ []) × (sent t.host fd ≡ sent s.host fd ++ pending_in (s.ca p))
  write_events-drain s fd p laws flows v live =
      let c = s.ca p in
      let k = length (pending_in c) in
      let t = write_events net tries k s fd p in
      let size : k ≡ left c = length-slice c.buf_in c.nwrite_in (left c) in
      let done = write_events-left net tries k s fd p laws flows v (inl live) (omega arith) in
      let nothing : pending_in (t.ca p) ≡ [] = nothing_left t.ca p done in
      (
        nothing,
        sym (append-nil (sent t.host fd))
            ∙ ap (λ l. sent t.host fd ++ l) (sym nothing)
            ∙ write_events-delivers k s fd p laws v,
      )
