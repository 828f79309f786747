-- ===== src/Provider/Local.antt =====
-- The event handlers of src/provider.c between the local provider and the consumer's agent:
-- write_to_local_provider, read_from_local_provider and write_to_consumer_agent.
use dubbo_service_mesh.Base.{
  ℕ, ◌+◌, false, Option, some, List, ◌∷◌, length, ◌==◌, ℤ, is_neg, if◌then◌else◌, ◌>>=◌,
}
use dubbo_service_mesh.Pool.{Ptr}
use dubbo_service_mesh.Net.{Host, received, closed, failed, wrote, refused, writable, both_ways}
use dubbo_service_mesh.Net.Buffer.{blit, slice, size_sub}
use dubbo_service_mesh.Provider.{
  Provider, Handler, Parser, read_from_consumer_agent, write_to_local_provider,
  read_from_local_provider, write_to_consumer_agent, put_caa,
}
use dubbo_service_mesh.Provider.Dubbo.{resp_buf_size}
use dubbo_service_mesh.Provider.Response.{is_complete, terminate, http_response}
use dubbo_service_mesh.Provider.Handlers.{
  delete_events, abort_connection_caa, create_or_abort, on_read_from_consumer_agent,
}

module _ {P E : Type 0} (http : Parser P (Provider P E)) (net : Host Handler E) (tries : ℕ) where
  -- _write_to_local_provider after write has taken `n` bytes.
  unfoldable pub wrote_to_local : Provider P E → Ptr → ℤ → ℕ → Provider P E
  wrote_to_local s p fd n =
      let c = s.caa p in
      let done = c.nwrite_req + n == c.len_req in
      let s1 = put_caa s p (record c { nwrite_req = c.nwrite_req + n }) in
      if done then delete_events http net tries s1 fd writable else s1

  unfoldable pub on_write_to_local_provider : Provider P E → (fd : ℤ) → Ptr → Provider P E
  unfolding wrote_to_local abort_connection_caa
  on_write_to_local_provider s fd p =
      let c = s.caa p in
      if is_neg c.fd
      then delete_events http net tries s fd both_ways
      else (let (r, e) =
            net.write s.host fd (slice c.buf_req c.nwrite_req (size_sub c.len_req c.nwrite_req)) in
          let s1 = record s { host = e } in
          elim r [
            | wrote n ↦ wrote_to_local s1 p fd n
            | refused again ↦ if again then s1 else abort_connection_caa http net tries s1 p
          ])

  -- read_from_local_provider after a successful read of `bs`.
  unfoldable pub collect_response : Provider P E → Ptr → List ℕ → Provider P E
  unfolding create_or_abort
  collect_response s p bs =
      let c = s.caa p in
      let c' = record c {
        buf_resp = blit c.buf_resp c.nread_resp bs;
        nread_resp = c.nread_resp + length bs;
      } in
      let s1 = put_caa s p c' in
      if is_complete c'.buf_resp c'.nread_resp
      then create_or_abort http net tries s1 c.fd writable write_to_consumer_agent p
      else s1

  unfoldable pub on_read_from_local_provider : Provider P E → (fd : ℤ) → Ptr → Provider P E
  unfolding collect_response abort_connection_caa
  on_read_from_local_provider s fd p =
      let c = s.caa p in
      if is_neg c.fd
      then delete_events http net tries s fd both_ways
      else (let (r, e) = net.read s.host fd (size_sub resp_buf_size c.nread_resp) in
          let s1 = record s { host = e } in
          let on_bytes = λ (b : ℕ) (bs : List ℕ). collect_response s1 p (b ∷ bs) in
          elim r [
            | received b bs ↦ on_bytes b bs
            | closed ↦ abort_connection_caa http net tries s1 p
            | failed again ↦ if again then s1 else abort_connection_caa http net tries s1 p
          ])

  -- _write_to_consumer_agent after write has taken `n` bytes of the `len` of the response: all of
  -- them, and the connection is ready for the next request, or some, and only that is logged.
  unfoldable pub wrote_to_agent : Provider P E → Ptr → ℤ → (n len : ℕ) → Provider P E
  wrote_to_agent s p fd n len =
      let s1 = delete_events http net tries s fd writable in
      if n == len
      then (put_caa s1 p (record (s1.caa p) {
        parser = http.init;
        nread_in = 0;
        len_req = 0;
        nwrite_req = 0;
        nread_resp = 0;
        processing = false;
      }))
      else s

  unfoldable pub on_write_to_consumer_agent : Provider P E → (fd : ℤ) → Ptr → Option (Provider P E)
  unfolding wrote_to_agent abort_connection_caa
  on_write_to_consumer_agent s fd p =
      let c = s.caa p in
      if is_neg c.fd
      then some (delete_events http net tries s fd both_ways)
      else (http_response c.buf_resp c.nread_resp >>= λ out.
          let s0 = put_caa s p (record c { buf_resp = terminate c.buf_resp c.nread_resp }) in
          let (r, e) = net.write s0.host fd out in
          let s1 = record s0 { host = e } in
          some (elim r [
            | wrote n ↦ wrote_to_agent s1 p fd n (length out)
            | refused again ↦ if again then s1 else abort_connection_caa http net tries s1 p
          ]))

  -- The event loop calls handler `f` for `fd` with the connection `p`.
  unfoldable pub handle : Provider P E → Handler → (fd : ℤ) → Ptr → Option (Provider P E)
  unfolding on_read_from_consumer_agent on_write_to_local_provider on_read_from_local_provider
      on_write_to_consumer_agent
  handle s f fd p = elim f [
    | read_from_consumer_agent ↦ on_read_from_consumer_agent http net tries s fd p
    | write_to_local_provider ↦ some (on_write_to_local_provider s fd p)
    | read_from_local_provider ↦ some (on_read_from_local_provider s fd p)
    | write_to_consumer_agent ↦ on_write_to_consumer_agent s fd p
  ]
