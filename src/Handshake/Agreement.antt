-- ===== src/Handshake/Agreement.antt =====
-- Server and client, each reading what the other wrote.
use mathlib.Core.List.{append_assoc, append-nil, append_cancel_left}
use iog.Prelude.{
  ℕ, ◌^◌, ◌<◌, ◌≡◌, refl, sym, ap, ap₂, ◌∙◌, ◌↔◌, true, false, Option, none, some, List, [], ◌∷◌,
  ◌++◌, length, All, arith, if◌then◌else◌, Bool-cases, inl, inr,
}
use iog.Transport.{WriteHalf, WriteLaws, ReadHalf, ReadLaws}
use iog.Packet.{PacketGw, to_bytes, auth_failed, reason_code}
use iog.Packet.Stream.{write_both, write_both-sent}
use iog.Bytes.{IsByte, add_u64}
use iog.Auth.{Hmac, HmacLaws, nonce_size, response_size, verify_response, compute_response}
use iog.Auth.Verify.{verify_response_iff}
use iog.Gateway.{Gateway, next_packet_id}
use iog.Server.Handshake.{
  challenge_packet, connected_packet, deny_packet, version_data, read_response, answer,
  await_response, authenticate_client,
}
use iog.Client.Handshake.{response_packet, read_challenge, read_verdict, respond, gw_authenticate}
use iog.Handshake.Steps.{
  read_challenge_lem, read_response_lem, read_verdict_connected, read_verdict_deny,
}

tag_length :
    ⦃h : Hmac⦄ (tags : HmacLaws h) (key nonce : List ℕ)
    → length (compute_response key nonce) ≡ response_size
unfolding compute_response
tag_length tags key nonce = tags.tag_length key nonce

tag-IsByte :
    ⦃h : Hmac⦄ (tags : HmacLaws h) (key nonce : List ℕ) → All IsByte (compute_response key nonce)
unfolding compute_response
tag-IsByte tags key nonce = tags.tag-IsByte key nonce

id_fits : {W : Type 0} (g : Gateway W) → (next_packet_id g).0 < 2 ^ 64
unfolding next_packet_id add_u64
id_fits g = omega arith

-- What the server answers to a response.
abbrev answer_bytes : ⦃h : Hmac⦄ → List ℕ → List ℕ → ℕ → List ℕ → List ℕ
answer_bytes key nonce id response =
    if verify_response key nonce response
    then to_bytes (connected_packet id) ++ version_data
    else to_bytes (deny_packet id) ++ reason_code auth_failed ∷ []

module _ {W : Type 0} ⦃io : WriteHalf W⦄ ⦃h : Hmac⦄ (writes : WriteLaws W io)
    (reliable : (w : W) (d : List ℕ) → (io.write_all w d).0 ≡ true) where
  write_both-true : (w : W) (a b : List ℕ) → (write_both w a b).0 ≡ true
  unfolding write_both
  write_both-true w a b = ground (arith, reliable w a, reliable (io.write_all w a).1 b)

  write_both_reliable :
      (w : W) (a b : List ℕ) → writes.sent (write_both w a b).1 ≡ writes.sent w ++ (a ++ b)
  write_both_reliable w a b =
      write_both-sent writes w a b (write_both-true w a b) ∙ append_assoc (writes.sent w) a b

  answer-sent :
      (w : W) (key nonce : List ℕ) (id : ℕ) (response : List ℕ)
      → ((answer w key nonce id response).0 ≡ verify_response key nonce response)
        × (writes.sent (answer w key nonce id response).1
            ≡ writes.sent w ++ answer_bytes key nonce id response)
  unfolding answer
  answer-sent w key nonce id response = elim (Bool-cases (verify_response key nonce response)) [
    | inl yes' ↦ rw yes' (write_both-true w _ _, write_both_reliable w _ _)
    | inr no' ↦
        let deny = to_bytes (deny_packet id) in
        let w' : W = (io.write_all w deny).1 in
        let code = reason_code auth_failed ∷ [] in
        rw no' (
          refl,
          writes.sent-write_all w' code (reliable w' code)
              ∙ ap (λ l. l ++ code) (writes.sent-write_all w deny (reliable w deny))
              ∙ append_assoc (writes.sent w) deny code,
        )
  ]

module _ {W R : Type 0} ⦃io : WriteHalf W⦄ ⦃ir : ReadHalf R⦄ ⦃h : Hmac⦄ (writes : WriteLaws W io)
    (reliable : (w : W) (d : List ℕ) → (io.write_all w d).0 ≡ true) where
  -- The server's challenge goes first; then, if a response came, the answer to it, which is
  -- also the server's verdict.
  await_sends :
      (g : Gateway W) (read : Option (PacketGw × List ℕ) × R) (w : W) (nonce : List ℕ)
      → let s = await_response g read w nonce false in
        (more : List ℕ) × (writes.sent s.2 ≡ writes.sent w ++ more)
        × ((pkt : PacketGw) (response : List ℕ)
            → read.0 ≡ some (pkt, response)
            → (more ≡ answer_bytes g.config.general.key nonce pkt.packet_id response)
              × (s.0 ≡ verify_response g.config.general.key nonce response))
  unfolding await_response
  await_sends g (none, r) w nonce = ([], sym (append-nil (writes.sent w)), λ pkt response e. cc)
  await_sends g (some (p, d), r) w nonce =
      let key = g.config.general.key in
      let (accepted, sent) = answer-sent writes reliable w key nonce p.packet_id d in
      (
        answer_bytes key nonce p.packet_id d,
        sent,
        λ pkt response e.
            let same_p : p ≡ pkt = cc in
            let same_d : d ≡ response = cc in
            (
              ap₂ (λ q y. answer_bytes key nonce q.packet_id y) same_p same_d,
              accepted ∙ ap (verify_response key nonce) same_d,
            ),
      )

  server_sends :
      (g : Gateway W) (r : R) (w : W) (nonce : List ℕ)
      → let s = authenticate_client g r w nonce false in
        let id = (next_packet_id g).0 in
        (more : List ℕ) × (writes.sent s.2
          ≡ writes.sent w ++ (to_bytes (challenge_packet id nonce) ++ (nonce ++ more)))
        × ((pkt : PacketGw) (response : List ℕ)
            → (read_response r).0 ≡ some (pkt, response)
            → (more ≡ answer_bytes g.config.general.key nonce pkt.packet_id response)
              × (s.0 ≡ verify_response g.config.general.key nonce response))
  unfolding authenticate_client next_packet_id
  server_sends g r w nonce =
      let (id, g') = next_packet_id g in
      let header = to_bytes (challenge_packet id nonce) in
      let w' : W = (write_both w header nonce).1 in
      let (more, sent, answered) = await_sends g' (read_response r) w' nonce in
      rw (write_both-true writes reliable w header nonce) (
        more,
        sent
            ∙ ap (λ l. l ++ more) (write_both_reliable writes reliable w header nonce)
            ∙ append_assoc (writes.sent w) (header ++ nonce) more
            ∙ ap (λ l. writes.sent w ++ l) (append_assoc header nonce more),
        answered,
      )

  client_sends :
      (g : Gateway W) (r : R) (w : W) (nonce : List ℕ)
      → let c = respond g (some nonce, r) w in
        let tag = compute_response g.config.general.key nonce in
        (writes.sent c.2
          ≡ writes.sent w ++ (to_bytes (response_packet (next_packet_id g).0 tag) ++ tag))
        × (c.0 ≡ (read_verdict r).0)
  unfolding respond
  client_sends g r w nonce =
      rw (write_both-true writes reliable w _ _) (write_both_reliable writes reliable w _ _, refl)

  -- Step 1 of the client, when it has read the nonce.
  challenged :
      (g : Gateway W) (r : R) (w : W) (nonce : List ℕ)
      → (read_challenge r).0 ≡ some nonce
      → gw_authenticate g r w ≡ respond g (some nonce, (read_challenge r).1) w
  unfolding gw_authenticate
  challenged g r w nonce e = λ i. respond g (e i, (read_challenge r).1) w

  -- The client reads the server's verdict off the answer.
  verdict_follows :
      (reads : ReadLaws R ir) (r : R) (key nonce : List ℕ) (id : ℕ) (response rest : List ℕ)
      → id < 2 ^ 64
      → reads.pending r ≡ answer_bytes key nonce id response ++ rest
      → (read_verdict r).0 ≡ verify_response key nonce response
  verdict_follows reads r key nonce id response rest h e =
      elim (Bool-cases (verify_response key nonce response)) [
        | inl accepted ↦ rw accepted (
            read_verdict_connected reads r id rest h (
              (rw accepted at e) ∙ append_assoc (to_bytes (connected_packet id)) version_data rest))
        | inr refused ↦
            let code = reason_code auth_failed ∷ [] in
            rw refused (
              read_verdict_deny reads r id (code ++ rest) h
                ((rw refused at e) ∙ append_assoc (to_bytes (deny_packet id)) code rest))
      ]

  -- Both sides agree: over streams that keep their laws and carry all that the other side writes,
  -- with writes that do not fail, no timeout, a nonce of 32 bytes and tags of 32 bytes, the client
  -- reports success exactly if the server accepts, and the server accepts exactly if the two keys
  -- give the same tag of the nonce.
  pub authenticate_client-gw_authenticate :
      (reads : ReadLaws R ir) (tags : HmacLaws h) (server client : Gateway W) (rs rc : R)
      (ws wc : W) (nonce from_server from_client rest_s rest_c : List ℕ)
      → length nonce ≡ nonce_size
      → let s = authenticate_client server rs ws nonce false in
        let c = gw_authenticate client rc wc in
        writes.sent s.2 ≡ writes.sent ws ++ from_server
        → writes.sent c.2 ≡ writes.sent wc ++ from_client
        → reads.pending rc ≡ from_server ++ rest_c
        → reads.pending rs ≡ from_client ++ rest_s
        → (c.0 ≡ s.0)
          × ((s.0 ≡ true) ↔ (
              compute_response client.config.general.key nonce
              ≡ compute_response server.config.general.key nonce))
  unfolding response_packet
  authenticate_client-gw_authenticate reads tags server client rs rc ws wc nonce from_server
        from_client rest_s rest_c n hs hc hrc hrs =
      let key = server.config.general.key in
      let tag = compute_response client.config.general.key nonce in
      let (more, sent, answered) = server_sends server rs ws nonce in
      let header = to_bytes (challenge_packet (next_packet_id server).0 nonce) in
      let from_server_eq = append_cancel_left _ _ _ (sym hs ∙ sent) in
      let (got, left) =
        read_challenge_lem reads rc (next_packet_id server).0 nonce (more ++ rest_c)
          (id_fits server) n
          (hrc
            ∙ ap (λ l. l ++ rest_c) from_server_eq
            ∙ append_assoc header (nonce ++ more) rest_c
            ∙ ap (λ l. header ++ l) (append_assoc nonce more rest_c)) in
      let answers = challenged client rc wc nonce got in
      let (csent, confirmed) = client_sends client (read_challenge rc).1 wc nonce in
      let from_client_eq =
        append_cancel_left _ _ _ (sym hc ∙ ap (λ x. writes.sent x.2) answers ∙ csent) in
      let id = (next_packet_id client).0 in
      let heard =
        read_response_lem reads rs id tag rest_s (id_fits client) (tag_length tags _ nonce) (
          hrs
          ∙ ap (λ l. l ++ rest_s) from_client_eq
          ∙ append_assoc (to_bytes (response_packet id tag)) tag rest_s) in
      let (more_eq, accepts) = answered (response_packet id tag) tag heard in
      let verdict =
        verdict_follows reads (read_challenge rc).1 key nonce id tag rest_c (id_fits client)
          (left ∙ ap (λ l. l ++ rest_c) more_eq) in
      let iff = verify_response_iff tags key nonce tag (tag-IsByte tags _ nonce) in
      (
        ap (λ x. x.0) answers ∙ confirmed ∙ verdict ∙ sym accepts,
        (λ e. iff.0 (sym accepts ∙ e), λ e. accepts ∙ iff.1 e),
      )
