-- ===== src/Provider/WrittenTests.antt =====
-- The theorem on a partial write of a response, at a socket that takes two bytes at first.
use dubbo_service_mesh.Base.{
  take-length, ℕ, ◌≡◌, refl, ap, sym, subst, inl, inr, some, List, [], ◌∷◌, ◌++◌, arith, pos,
  length, take, ◌==◌, Bool-cases, if◌then◌else◌,
}
use dubbo_service_mesh.Text.{bytes}
use dubbo_service_mesh.Net.{Host, Streams, wrote}
use dubbo_service_mesh.Net.Buffer.{blit, slice}
use dubbo_service_mesh.Net.Tests.{wire}
use dubbo_service_mesh.Provider.{Provider, Handler}
use dubbo_service_mesh.Provider.ArrivedTests.{finder, waiting}
use dubbo_service_mesh.Provider.Local.{on_write_to_consumer_agent}
use dubbo_service_mesh.Provider.Tests.{asked, empty}
use dubbo_service_mesh.Provider.Written.{http_text, on_write_to_consumer_agent_resent}

-- 16 bytes of header, a status, the text `7` and a newline.
abbrev front : List ℕ
front = 0xda ∷ 0xbb ∷ 2 ∷ 20 ∷ 0 ∷ 0 ∷ 0 ∷ 0 ∷ 0 ∷ 0 ∷ 0 ∷ 7 ∷ 0 ∷ 0 ∷ 0 ∷ 4 ∷ b'1' ∷ 10 ∷ []

abbrev text : List ℕ
text = bytes "7"

abbrev slow : Host Handler (List ℕ)
slow = record (wire b'P' []) {
  write =
      λ e fd bs. if length e == 0 then (wrote 2, e ++ take 2 bs) else (wrote (length bs), e ++ bs);
}

slow-Streams : Streams slow (λ e fd. e)
slow-Streams = record {
  wrote_more = λ e fd bs n h. elim (Bool-cases (length e == 0)) [
    | inl first ↦
        let two : 2 ≡ n = ground arith in
        rw first (subst (λ m. e ++ take 2 bs ≡ e ++ take m bs) two refl)
    | inr next ↦
        let all : length bs ≡ n = ground arith in
        rw next
          (subst (λ m. e ++ bs ≡ e ++ take m bs) all (ap (λ l. e ++ l) (sym (take-length bs))))
  ];
  wrote_none = λ e fd bs again h. elim (Bool-cases (length e == 0)) [
    | inl first ↦ absurd (ground arith)
    | inr next ↦ absurd (ground arith)
  ];
  read_keeps = λ e fd at count. refl;
  create_keeps = λ e fd at mask f p. refl;
  connect_keeps = λ e ip port at. refl;
  tune_keeps = λ e fd at. refl;
  sleep_keeps = λ e n at. refl;
  close_keeps = λ e fd at. refl;
  delete_keeps = λ e fd at mask. refl;
  clock_keeps = λ e at. refl;
  malloc_keeps = λ e n at. refl;
  dealloc_keeps = λ e d at. refl;
}

abbrev answered : Provider ℕ (List ℕ)
answered = record waiting {
  caa = λ p. record asked { buf_resp = blit empty 0 (front ++ (text ++ 10 ∷ [])); nread_resp = 20 };
}

on_write_to_consumer_agent_resent_example :
    (t u : Provider ℕ (List ℕ)) × (on_write_to_consumer_agent finder slow 1 answered (pos 5) 1200
      ≡ some t)
    × (on_write_to_consumer_agent finder slow 1 (record t { host = bytes "HT" }) (pos 5) 1200
        ≡ some u)
    × (u.host ≡ bytes "HT" ++ http_text text)
unfolding slice blit
on_write_to_consumer_agent_resent_example =
    on_write_to_consumer_agent_resent finder slow 1 (λ e fd. e) slow-Streams answered 1200 (pos 5)
      front text 2 (bytes "HT") refl refl refl (omega arith) (ground arith) refl (omega arith) refl
      refl
