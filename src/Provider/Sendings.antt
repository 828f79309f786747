-- ===== src/Provider/Sendings.antt =====
-- The way of a request from `buf_req` of src/provider.c to the socket of the local provider, over any
-- sequence of write events while the other connections and the world go on.
use mathlib.Core.List.{append-nil}
use dubbo_service_mesh.Base.{
  ℤ, ℕ, suc, ◌+◌, ◌-◌, ◌≤◌, ◌≡◌, ◌⊎◌, refl, ap, sym, ◌∙◌, subst, inl, inr, true, false, List, [],
  ◌++◌, arith, length, take, ◌==◌, is_neg, Bool-cases,
}
use dubbo_service_mesh.Pool.{Ptr}
use dubbo_service_mesh.Net.{Host, HostLaws, Streams, Flows, WriteResult-cases, both_ways}
use dubbo_service_mesh.Net.Buffer.{slice, size_sub, length-slice, pending, append-take-pending}
use dubbo_service_mesh.Provider.{ConnectionCaa, Provider, Handler, Parser}
use dubbo_service_mesh.Provider.Local.{wrote_to_local, on_write_to_local_provider}
use dubbo_service_mesh.Provider.Handlers.{abort_connection_caa}
use dubbo_service_mesh.Provider.Frame.{abort-On}
use dubbo_service_mesh.Provider.Bounds.{IsBounded}
use dubbo_service_mesh.Provider.Sent.{Sent, body_of, Alike, Alike-Refds, abort-Sent}

-- The bytes of the request that have not been sent, and their number.
abbrev pub pending_req : {P : Type 0} → ConnectionCaa P → List ℕ
pending_req c = pending c.buf_req c.nwrite_req c.len_req

abbrev pub left : {P : Type 0} → ConnectionCaa P → ℕ
left c = c.len_req - c.nwrite_req

given : {P : Type 0} (c : ConnectionCaa P) → IsBounded c → size_sub c.len_req c.nwrite_req ≡ left c
given c v = omega (arith, v.sent_req, v.room_req)

nothing_left : {P : Type 0} (c : ConnectionCaa P) → left c ≡ 0 → pending_req c ≡ []
unfolding slice
nothing_left c h = rw h refl

pub Alike-IsBounded :
    {P : Type 0} (c d : ConnectionCaa P) → body_of d ≡ body_of c → IsBounded c → IsBounded d
Alike-IsBounded c d same v =
    let w : IsBounded (body_of c) = record {
      room_in = v.room_in;
      sent_req = v.sent_req;
      room_req = v.room_req;
      room_resp = v.room_resp;
      idle = v.idle;
    } in
    let u = subst IsBounded (sym same) w in
    record {
      room_in = u.room_in;
      sent_req = u.sent_req;
      room_req = u.room_req;
      room_resp = u.room_resp;
      idle = u.idle;
    }

module _ {P E : Type 0} (http : Parser P (Provider P E)) (net : Host Handler E) (tries : ℕ)
    (sent : E → ℤ → List ℕ) (str : Streams net sent) where
  wrote_to_local-caa :
      (s : Provider P E) (p : Ptr) (fd : ℤ) (n : ℕ)
      → (wrote_to_local http net tries s p fd n).caa p
        ≡ record (s.caa p) { nwrite_req = (s.caa p).nwrite_req + n }
  unfolding wrote_to_local
  wrote_to_local-caa s p fd n =
      let self : (p == p) ≡ true = ground arith in
      elim (Bool-cases ((s.caa p).nwrite_req + n == (s.caa p).len_req)) [
        | inl done ↦ rw (done, self) refl
        | inr more ↦ rw (more, self) refl
      ]

  wrote_to_local-Sent :
      (at : ℤ) (xs : List ℕ) (s : Provider P E) (p : Ptr) (fd : ℤ) (n : ℕ)
      → Sent sent at xs s
      → Sent sent at xs (wrote_to_local http net tries s p fd n)
  unfolding wrote_to_local
  wrote_to_local-Sent at xs s p fd n v =
      elim (Bool-cases ((s.caa p).nwrite_req + n == (s.caa p).len_req)) [
        | inl done ↦ rw (done, str.delete_keeps) v
        | inr more ↦ rw more v
      ]

  -- The socket has accepted and connection `p` has to send what `ys` is, and it is within its buffers.
  record Keeping (at : ℤ) (p : Ptr) (ys : List ℕ) (s : Provider P E) : Type 0 where
    total : sent s.host at ++ pending_req (s.caa p) ≡ ys
    bounded : IsBounded (s.caa p)

  Alike-Keeping :
      (at : ℤ) (p : Ptr) (ys : List ℕ) (s t : Provider P E)
      → Alike p (s.caa p) t.caa t.cur_request_id
      → sent t.host at ≡ sent s.host at
      → Keeping at p ys s
      → Keeping at p ys t
  Alike-Keeping at p ys s t same kept v = record {
    total = rw kept (ap (λ c. sent s.host at ++ pending_req c) same ∙ v.total);
    bounded = Alike-IsBounded (s.caa p) (t.caa p) same v.bounded;
  }

  -- A write event keeps this, on every branch.
  on_write_to_local_provider-Keeping :
      (s : Provider P E) (at : ℤ) (p : Ptr) (ys : List ℕ)
      → HostLaws net
      → Keeping at p ys s
      → Keeping at p ys (on_write_to_local_provider http net tries s at p)
  unfolding on_write_to_local_provider
  on_write_to_local_provider-Keeping s at p ys laws v =
      let c = s.caa p in
      let bs = slice c.buf_req c.nwrite_req (size_sub c.len_req c.nwrite_req) in
      let s1 = record s { host = (net.write s.host at bs).1 } in
      elim (Bool-cases (is_neg c.fd)) [
        | inl gone ↦
            rw gone (Alike-Keeping at p ys s _ refl (str.delete_keeps s.host at at both_ways) v)
        | inr live ↦ elim (WriteResult-cases (net.write s.host at bs).0) [
          | inl (n, e) ↦
              let h : n ≤ length bs = rw e at (laws.writes s.host at bs) in
              let size = length-slice c.buf_req c.nwrite_req (size_sub c.len_req c.nwrite_req) in
              let all = given c v.bounded in
              let fits : c.nwrite_req + n ≤ c.len_req = omega (arith, v.bounded.sent_req) in
              let to = wrote_to_local-Sent at (sent s.host at ++ take n (pending_req c)) s1 p at n (
                str.wrote_more s.host at bs n e
                ∙ ap (λ k. sent s.host at ++ take n (slice c.buf_req c.nwrite_req k)) all) in
              rw (live, e)
                (record {
                  total =
                      rw (to, wrote_to_local-caa s1 p at n)
                        (append-take-pending (sent s.host at) c.buf_req c.nwrite_req c.len_req n
                            fits
                          ∙ v.total);
                  bounded = rw (wrote_to_local-caa s1 p at n) (record {
                    room_in = v.bounded.room_in;
                    sent_req = fits;
                    room_req = v.bounded.room_req;
                    room_resp = v.bounded.room_resp;
                    idle = v.bounded.idle;
                  });
                })
          | inr (again, e) ↦
              let kept : Sent sent at (sent s.host at) s1 = str.wrote_none s.host at bs again e in
              rw (live, e)
                (elim (Bool-cases again) [
                  | inl later ↦ rw later (Alike-Keeping at p ys s s1 refl kept v)
                  | inr error ↦ rw error (
                      Alike-Keeping at p ys s (abort_connection_caa http net tries s1 p)
                        (abort-On http net tries (Alike p c) (Alike-Refds p c) s1 p refl)
                        (abort-Sent http net tries sent str at (sent s.host at) s1 p kept) v)
                ])
        ]
      ]

  -- An open connection has sent one byte more, or all; and it is still open, or has sent all.
  abbrev Ready : Ptr → Provider P E → Type 0
  Ready p s = (is_neg (s.caa p).fd ≡ false) ⊎ (left (s.caa p) ≡ 0)

  on_write_to_local_provider-left :
      (s : Provider P E) (at : ℤ) (p : Ptr)
      → Flows net
      → IsBounded (s.caa p)
      → Ready p s
      → let t = on_write_to_local_provider http net tries s at p in
        (left (t.caa p) ≤ left (s.caa p) - 1) × Ready p t
  unfolding on_write_to_local_provider
  on_write_to_local_provider-left s at p flows v ready =
      let c = s.caa p in
      let bs = slice c.buf_req c.nwrite_req (size_sub c.len_req c.nwrite_req) in
      let s1 = record s { host = (net.write s.host at bs).1 } in
      let size : length bs ≡ left c =
        length-slice c.buf_req c.nwrite_req (size_sub c.len_req c.nwrite_req) ∙ given c v in
      elim (Bool-cases (is_neg c.fd)) [
        | inl gone ↦ rw gone (ground arith, inr (ground arith))
        | inr live ↦ elim (Bool-cases (left c == 0)) [
          | inr some_left ↦
              let (n, e, real) = flows.takes s.host at bs (ground arith) in
              rw (live, e, wrote_to_local-caa s1 p at n) (omega arith, inl live)
          | inl nothing ↦ elim (WriteResult-cases (net.write s.host at bs).0) [
            | inl (n, e) ↦ rw (live, e, wrote_to_local-caa s1 p at n) (ground arith, inl live)
            | inr (again, e) ↦
                let empty : left c ≡ 0 = ground arith in
                elim (Bool-cases again) [
                  | inl later ↦ rw (live, e, later) (omega arith, inl live)
                  | inr error ↦
                      let same = abort-On http net tries (Alike p c) (Alike-Refds p c) s1 p refl in
                      let none_left : left ((abort_connection_caa http net tries s1 p).caa p) ≡ 0 =
                        ap left same ∙ empty in
                      rw (live, e, error, none_left) (omega arith, inr refl)
                ]
          ]
        ]
      ]

  -- A sequence of events with `k` write events for connection `p` on socket `at`. In between, anything
  -- may happen that neither changes this connection nor writes to this socket.
  pub data Sendings (at : ℤ) (p : Ptr) (s : Provider P E) : (k : ℕ) → Provider P E → Type 0 where
    start : Sendings at p s 0 s
    writing :
        {k : ℕ} {t : Provider P E}
        → Sendings at p s k t
        → Sendings at p s (suc k) (on_write_to_local_provider http net tries t at p)
    elsewhere :
        {k : ℕ} {t : Provider P E} (u : Provider P E)
        → Sendings at p s k t
        → u.caa p ≡ t.caa p
        → sent u.host at ≡ sent t.host at
        → Sendings at p s k u

  Sendings-Keeping :
      {at : ℤ} {p : Ptr} {s t : Provider P E} {k : ℕ} (ys : List ℕ)
      → HostLaws net
      → Keeping at p ys s
      → Sendings at p s k t
      → Keeping at p ys t
  Sendings-Keeping ys laws v start = v
  Sendings-Keeping {at} {p} ys laws v (writing {t} r) =
      on_write_to_local_provider-Keeping t at p ys laws (Sendings-Keeping ys laws v r)
  Sendings-Keeping {at} {p} ys laws v (elsewhere {t} u r same kept) =
      Alike-Keeping at p ys t u (ap body_of same) kept (Sendings-Keeping ys laws v r)

  Sendings-left :
      {at : ℤ} {p : Ptr} {s t : Provider P E} {k : ℕ}
      → HostLaws net
      → Flows net
      → IsBounded (s.caa p)
      → Ready p s
      → Sendings at p s k t
      → (left (t.caa p) ≤ left (s.caa p) - k) × Ready p t
  Sendings-left laws flows v ready start = (omega arith, ready)
  Sendings-left {at} {p} {s} laws flows v ready (writing {k} {t} r) =
      let (less, still) = Sendings-left laws flows v ready r in
      let w =
        Sendings-Keeping (sent s.host at ++ pending_req (s.caa p)) laws
          (record { total = refl; bounded = v }) r in
      let (one, then) = on_write_to_local_provider-left t at p flows w.bounded still in
      (omega arith, then)
  Sendings-left {at} {p} laws flows v ready (elsewhere {t} u r same kept) =
      let (less, still) = Sendings-left laws flows v ready r in rw same (less, still)

  -- Where the socket takes at least a byte at each write event, an open connection has sent its whole
  -- request once it has seen as many write events as the request has bytes left: the socket has
  -- accepted exactly these bytes after what it had.
  pub Sendings-drain :
      {at : ℤ} {p : Ptr} {s t : Provider P E} {k : ℕ}
      → HostLaws net
      → Flows net
      → IsBounded (s.caa p)
      → is_neg (s.caa p).fd ≡ false
      → Sendings at p s k t
      → length (pending_req (s.caa p)) ≤ k
      → (pending_req (t.caa p) ≡ []) × (sent t.host at ≡ sent s.host at ++ pending_req (s.caa p))
  Sendings-drain {at} {p} {s} {t} laws flows v live r enough =
      let c = s.caa p in
      let size = length-slice c.buf_req c.nwrite_req (left c) in
      let (less, ready) = Sendings-left laws flows v (inl live) r in
      let done : left (t.caa p) ≡ 0 = omega arith in
      let nothing : pending_req (t.caa p) ≡ [] = nothing_left (t.caa p) done in
      let w =
        Sendings-Keeping (sent s.host at ++ pending_req c) laws
          (record { total = refl; bounded = v }) r in
      (
        nothing,
        sym (append-nil (sent t.host at)) ∙ ap (λ l. sent t.host at ++ l) (sym nothing) ∙ w.total,
      )
