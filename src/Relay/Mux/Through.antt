-- ===== src/Relay/Mux/Through.antt =====
-- A packet sent through one of the writers of a side, as a shared stream sees it: `send_to` of
-- either side.
use iog.Prelude.{
  ℕ, ◌≡◌, ◌≢◌, refl, ◌∙◌, Bool, true, false, Option, none, some, List, [], ◌∷◌, ◌==◌, arith,
  get_elem?, modify, modify_at, get_elem?-modify, Option-cases, Bool-cases, inl, inr,
}
use mathlib.Core.List.{append-nil}
use iog.Prelude.{sym}
use iog.Transport.{WriteHalf, WriteLaws}
use iog.Packet.{PacketGw}
use iog.Compression.{Zstd}
use iog.Gateway.{Gateway}
use iog.Gateway.Send.{prepare, send_gw_packet}
use iog.Gateway.RoundTrip.{wire}
use iog.Relay.Arrival.{send_gw_packet_reliable}
use iog.Relay.Mux.Put.{IsSendable, PassesBy, Put, Puts, quiet, passing, unread}

module _ {W : Type 0} ⦃io : WriteHalf W⦄ ⦃z : Zstd⦄ where
  abbrev pub through : List W → Gateway W → ℕ → PacketGw → Option (List ℕ) → List W
  through writers g writer p d = elim (get_elem? writers writer) [
    | none ↦ writers
    | some w ↦ modify writers writer (λ x. (send_gw_packet g w p d).1)
  ]

  pub through_other :
      (writers : List W) (g : Gateway W) (writer own : ℕ) (p : PacketGw) (d : Option (List ℕ))
      → writer ≢ own
      → get_elem? (through writers g writer p d) own ≡ get_elem? writers own
  through_other writers g writer own p d h = elim (Option-cases (get_elem? writers writer)) [
    | inl e ↦ rw (e, through) refl
    | inr (w, e) ↦
        rw (e, through)
          (ground (arith, h, get_elem?-modify writers writer own (λ x. (send_gw_packet g w p d).1)))
  ]

  module _ (writes : WriteLaws W io) (reliable : (w : W) (d : List ℕ) → (io.write_all w d).0 ≡ true)
      (id : ℕ) where
    pub Puts-quiet :
        (runs : Bool) (w : W) (after : Option W)
        → after ≡ some w
        → Puts writes id runs runs [] w after
    Puts-quiet runs w after e = record {
      writer = w;
      there = e;
      bytes = [];
      sent = sym (append-nil (writes.sent w));
      put = quiet runs;
    }

    pub Puts-unread :
        (x : Option (List ℕ)) (w : W) (after : Option W)
        → after ≡ some w
        → Puts writes id false false (x ∷ []) w after
    Puts-unread x w after e = record {
      writer = w;
      there = e;
      bytes = [];
      sent = sym (append-nil (writes.sent w));
      put = unread x;
    }

    pub through-Puts :
        (writers : List W) (g : Gateway W) (writer : ℕ) (w : W) (p : PacketGw) (d : Option (List ℕ))
        (runs runs' : Bool) (xs : List (Option (List ℕ)))
        → get_elem? writers writer ≡ some w
        → Put id runs runs' xs (wire (prepare p d))
        → Puts writes id runs runs' xs w (get_elem? (through writers g writer p d) writer)
    through-Puts writers g writer w p d runs runs' xs e put = record {
      writer = (send_gw_packet g w p d).1;
      there = rw (e, through) (modify_at writers writer (λ x. (send_gw_packet g w p d).1) w e);
      bytes = wire (prepare p d);
      sent = (send_gw_packet_reliable writes reliable g w p d).1;
      put = put;
    }

    -- A packet that passes the link by, through any writer.
    pub through_passing :
        (writers : List W) (g : Gateway W) (writer own : ℕ) (w : W) (p : PacketGw)
        (d : Option (List ℕ)) (runs : Bool)
        → IsSendable p d
        → PassesBy p.packet_type p.link_id id
        → get_elem? writers own ≡ some w
        → Puts writes id runs runs [] w (get_elem? (through writers g writer p d) own)
    through_passing writers g writer own w p d runs ok passes e =
        elim (Bool-cases (writer == own)) [
          | inl same ↦
              let same' : writer ≡ own = ground arith in
              rw same'
                (through-Puts writers g own w p d runs runs [] e (passing runs p d ok passes))
          | inr other ↦
              Puts-quiet runs w _ (through_other writers g writer own p d (λ h. ground arith) ∙ e)
        ]
