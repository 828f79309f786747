-- ===== src/Provider/HistoryTests.antt =====
-- The theorems on the handlers of src/provider.c at one connection with a request, with the host and
-- the parser of the other tests.
use dubbo_service_mesh.Base.{ℕ, refl, inl, inr, true, arith, length, pos, subst, Option-cases}
use mathlib.Core.Option.{some-injective}
use dubbo_service_mesh.Net.{HostLaws}
use dubbo_service_mesh.Provider.{Provider, ParserLaws, write_to_local_provider}
use dubbo_service_mesh.Provider.Local.{handle, on_write_to_local_provider}
use dubbo_service_mesh.Provider.Bounds.{AllBounded}
use dubbo_service_mesh.Provider.Safety.{handle_bounds}
use dubbo_service_mesh.Provider.Tests.{quick, whole, asked, serving}

quick-HostLaws : HostLaws quick
quick-HostLaws = record { reads = λ e fd count. ground arith; writes = λ e fd bs. omega arith }

pub whole-ParserLaws : ParserLaws whole
whole-ParserLaws = record {
  keeps = λ I on_body q bs s r step got start. elim (Option-cases (on_body s 0 (length bs))) [
    | inl e ↦ absurd (ground arith)
    | inr (a, e) ↦
        subst (λ x. I x.1.1) (some-injective _ _ (rw e at got))
          (step s 0 (length bs) a (omega arith) e start)
  ];
}

-- A request of which a part is out.
abbrev sending : Provider ℕ ℕ
sending = record serving {
  caa = λ p. record asked { len_req = 40; nwrite_req = 30; processing = true };
}

sending-AllBounded : AllBounded sending
sending-AllBounded = λ q. ground arith

handle_bounds_example : AllBounded (on_write_to_local_provider whole quick 1 sending (pos 6) 1200)
unfolding handle
handle_bounds_example =
    handle_bounds whole quick 1 sending
      (on_write_to_local_provider whole quick 1 sending (pos 6) 1200) write_to_local_provider
      (pos 6) 1200 quick-HostLaws whole-ParserLaws sending-AllBounded refl
