-- ===== src/Relay/Stream/Receiver.antt =====
-- The receiving end of a connection: an exchange loop, of either side, as far as one link is
-- concerned.
use iog.Prelude.{
  ℕ, zero, suc, ◌≡◌, refl, ap, ◌∙◌, Option, none, some, List, [], ◌∷◌, arith, get_elem?, modify_at,
  nat_eq,
}
use iog.Map
use iog.Transport.{WriteHalf, ReadHalf, ReadLaws}
use iog.Packet.{PacketGw, regular, close, packet_header_size}
use iog.Compression.{Zstd}
use iog.Link
use iog.Link.{Link}
use iog.Gateway.{Gateway, with_link, remove_link}
use iog.Gateway.Drop.{drop_link, drop_link-links, close_removed}
use iog.Gateway.Receive.{read_gw_packet}
use iog.Gateway.Frame.{read_gw_packet-SameLinks}
use iog.Relay.Arrival.{Arrives}

-- A registered link.
pub record LinkAt {W : Type 0} (g : Gateway W) (id ref : ℕ) (l : Link W) : Type 0 where
  pub known : Map.get g.links id ≡ some ref
  pub there : get_elem? g.heap ref ≡ some l

-- A link that has been taken off the registry.
pub record LinkGone {W : Type 0} (g : Gateway W) (id ref : ℕ) (l : Link W) : Type 0 where
  pub unknown : Map.get g.links id ≡ none
  pub there : get_elem? g.heap ref ≡ some l

module _ {W : Type 0} ⦃io : WriteHalf W⦄ where
  pub drop_link-LinkGone :
      (g : Gateway W) (id ref : ℕ) (l : Link W)
      → LinkAt g id ref l
      → LinkGone (drop_link g id) id ref (Link.close_connection l)
  unfolding drop_link remove_link with_link
  drop_link-LinkGone g id ref l at = record {
    unknown =
        ap (λ m. Map.get m id) (drop_link-links g id)
        ∙ ground (arith, Map.get-remove g.links id id);
    there = rw (at.known, close_removed) (modify_at g.heap ref Link.close_connection l at.there);
  }

module _ {W R : Type 0} ⦃ir : ReadHalf R⦄ ⦃z : Zstd⦄ where
  pub read_gw_packet-LinkAt :
      (g : Gateway W) (r : R) (id ref : ℕ) (l : Link W)
      → LinkAt g id ref l
      → LinkAt (read_gw_packet g r).2 id ref l
  read_gw_packet-LinkAt g r id ref l at =
      let (links, heap) = read_gw_packet-SameLinks g r in
      record {
        known = ap (λ m. Map.get m id) links ∙ at.known;
        there = ap (λ h. get_elem? h ref) heap ∙ at.there;
      }

  -- At the end of the stream nothing is read.
  pub read_gw_packet_end :
      (reads : ReadLaws R ir) (g : Gateway W) (r : R)
      → reads.pending r ≡ []
      → (read_gw_packet g r).0 ≡ none
  unfolding read_gw_packet
  read_gw_packet_end reads g r e =
      let short : (ir.read_exact r packet_header_size).0 ≡ none =
        reads.read_exact_short r packet_header_size (rw e (omega arith)) in
      rw (short, read_gw_packet) refl

-- What a side promises of the rounds of its loop: data for a link goes to the link, a `Close`
-- closes it and takes it off the registry, and the end of the stream ends the loop. The number
-- tells the rounds apart, for what they get from outside.
pub record Receiver (W : Type 0) {R : Type 0} ⦃io : WriteHalf W⦄ ⦃ir : ReadHalf R⦄ ⦃z : Zstd⦄
    (reads : ReadLaws R ir) (S : Type 0) : Type 0 where
  pub base : S → Gateway W
  pub turn : ℕ → S → R → Option R × S
  pub on_data :
      (n : ℕ) (s : S) (r : R) (ref : ℕ) (l : Link W) (p : PacketGw) (b : ℕ) (bs rest : List ℕ)
      → LinkAt (base s) p.link_id ref l
      → p.packet_type ≡ regular
      → Arrives reads (base s) r p (some (b ∷ bs)) rest
      → (r' : R) × (s' : S) × (turn n s r ≡ (some r', s'))
        × (reads.pending r' ≡ rest)
        × LinkAt (base s') p.link_id ref (Link.send_packet l (some (b ∷ bs)))
  pub on_close :
      (n : ℕ) (s : S) (r : R) (ref : ℕ) (l : Link W) (p : PacketGw) (rest : List ℕ)
      → LinkAt (base s) p.link_id ref l
      → p.packet_type ≡ close
      → Arrives reads (base s) r p none rest
      → (r' : R) × (s' : S) × (turn n s r ≡ (some r', s'))
        × (reads.pending r' ≡ rest)
        × LinkGone (base s') p.link_id ref (Link.close_connection l)
  pub on_end :
      (n : ℕ) (s : S) (r : R)
      → reads.pending r ≡ []
      → (s' : S) × (turn n s r ≡ (none, s'))
        × ((base s').links ≡ (base s).links)
        × ((base s').heap ≡ (base s).heap)

-- Such a loop on fuel.
abbrev pub loop : {S R : Type 0} → (ℕ → S → R → Option R × S) → ℕ → S → R → Option S
loop turn zero s r = none
loop turn (suc fuel) s r = elim (turn fuel s r).0 [
  | none ↦ some (turn fuel s r).1
  | some r' ↦ loop turn fuel (turn fuel s r).1 r'
]

module _ {S R : Type 0} (turn : ℕ → S → R → Option R × S) (fuel : ℕ) (s s' : S) (r : R) where
  pub loop_next :
      (r' : R) → turn fuel s r ≡ (some r', s') → loop turn (suc fuel) s r ≡ loop turn fuel s' r'
  loop_next r' e =
      ap
        (λ (x : Option R × S). elim x.0 as (λ y. Option S) [
          | none ↦ some x.1
          | some r'' ↦ loop turn fuel x.1 r''
        ])
        e

  pub loop_last : turn fuel s r ≡ (none, s') → loop turn (suc fuel) s r ≡ some s'
  loop_last e =
      ap
        (λ (x : Option R × S). elim x.0 as (λ y. Option S) [
          | none ↦ some x.1
          | some r'' ↦ loop turn fuel x.1 r''
        ])
        e
