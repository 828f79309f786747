-- ===== src/Provider/NextRequest.antt =====
-- A connection of src/provider.c after its response: what _write_to_consumer_agent resets and keeps.
use dubbo_service_mesh.Base.{ℤ, ℕ, ◌≡◌, ◌≢◌, refl, ◌∙◌, true, false, arith, ◌==◌}
use dubbo_service_mesh.Pool.{Ptr}
use dubbo_service_mesh.Net.{Host, writable}
use dubbo_service_mesh.Provider.{ConnectionCaa, Provider, Handler, Parser, put_caa}
use dubbo_service_mesh.Provider.Local.{wrote_to_agent}
use dubbo_service_mesh.Provider.Response.{terminate}

-- A connection whose parser and positions are as at its start.
pub record IsReset {P E : Type 0} (http : Parser P (Provider P E)) (c : ConnectionCaa P)
    : Type 0 where
  pub parser : c.parser ≡ http.init
  pub nread_in : c.nread_in ≡ 0
  pub len_req : c.len_req ≡ 0
  pub nwrite_req : c.nwrite_req ≡ 0
  pub nread_resp : c.nread_resp ≡ 0
  pub idle : c.processing ≡ false

module _ {P E : Type 0} (http : Parser P (Provider P E)) (net : Host Handler E) where
  -- Connection `p` can take the next request: it starts again on the sockets that it has; of the
  -- events of the host `e`, only the one for writing to `fd` is gone; all else is as it was.
  pub record TakesNext (s : Provider P E) (p : Ptr) (fd : ℤ) (e : E) (t : Provider P E)
      : Type 0 where
    pub reset : IsReset http (t.caa p)
    pub same_fd : (t.caa p).fd ≡ (s.caa p).fd
    pub same_ap : (t.caa p).conn_ap ≡ (s.caa p).conn_ap
    pub events : t.host ≡ net.delete_file_event e fd writable
    pub others : (r : Ptr) → r ≢ p → t.caa r ≡ s.caa r
    pub same_connections : t.ap ≡ s.ap
    pub same_ids : t.cur_request_id ≡ s.cur_request_id

  -- The response in buf_resp has been ended with a NUL before.
  pub TakesNext-terminated :
      (s : Provider P E) (p : Ptr) (fd : ℤ) (e : E) (t : Provider P E)
      → TakesNext
          (record (put_caa s p
            (record (s.caa p) { buf_resp = terminate (s.caa p).buf_resp (s.caa p).nread_resp })) {
              host = e;
            })
          p
          fd
          e
          t
      → TakesNext s p fd e t
  TakesNext-terminated s p fd e t v =
      let self : (p == p) ≡ true = ground arith in
      record {
        reset = v.reset;
        same_fd = v.same_fd ∙ rw self refl;
        same_ap = v.same_ap ∙ rw self refl;
        events = v.events;
        others = λ r other.
            let there : (r == p) ≡ false = ground arith in v.others r other ∙ rw there refl;
        same_connections = v.same_connections;
        same_ids = v.same_ids;
      }

module _ {P E : Type 0} (http : Parser P (Provider P E)) (net : Host Handler E) (tries : ℕ) where
  pub wrote_to_agent-TakesNext :
      (s : Provider P E) (p : Ptr) (fd : ℤ) (n : ℕ)
      → TakesNext http net s p fd s.host (wrote_to_agent http net tries s p fd n n)
  unfolding wrote_to_agent
  wrote_to_agent-TakesNext s p fd n =
      let self : (p == p) ≡ true = ground arith in
      let all : (n == n) ≡ true = ground arith in
      rw all (record {
        reset = rw self (record {
          parser = refl;
          nread_in = refl;
          len_req = refl;
          nwrite_req = refl;
          nread_resp = refl;
          idle = refl;
        });
        same_fd = rw self refl;
        same_ap = rw self refl;
        events = refl;
        others = λ r other. ground arith;
        same_connections = refl;
        same_ids = refl;
      })
