-- ===== src/Link.antt =====
-- gateway/link.rs: one TCP connection to the application. The read half shows only in the results
-- of its reads, which are arguments of the forwarding loops.
pub mod Silence
use iog.Prelude.{
  ℕ, ◌≡◌, Bool, true, false, Option, none, some, List, [], ◌∷◌, if◌then◌else◌, length,
}
use iog.Bytes.{add_u64}
use iog.Transport.{WriteHalf}
use iog.Statistics
use iog.Statistics.{ConnectionStatistics}

pub data ConnectionState : Type 0 where
  disconnected connected waiting : ConnectionState

-- `connection_awaiter` names a `Notify`; `notified` records the calls of `notify_one`, newest first.
pub record Link (W : Type 0) : Type 0 where
  pub connection_id : ℕ
  pub writer : W
  pub state : ConnectionState
  pub statistics : ConnectionStatistics
  pub connection_awaiter : Option ℕ
  pub notified : List ℕ

unfoldable pub is_connected : ConnectionState → Bool
is_connected connected = true
is_connected disconnected = false
is_connected waiting = false

notify : ConnectionState → Option ℕ → List ℕ → List ℕ
notify connected (some awaiter) notified = awaiter ∷ notified
notify connected none notified = notified
notify disconnected awaiter notified = notified
notify waiting awaiter notified = notified

module _ {W : Type 0} where
  unfoldable pub new : W → ℕ → Link W
  unfolding Statistics.new
  new writer connection_id = record {
    connection_id = connection_id;
    writer = writer;
    state = disconnected;
    statistics = Statistics.new;
    connection_awaiter = none;
    notified = [];
  }

  unfoldable pub add_incoming : Link W → ℕ → Link W
  unfolding Statistics.add_bytes_in
  add_incoming l bytes = record l { statistics = Statistics.add_bytes_in l.statistics bytes }

  unfoldable pub get_stats : Link W → ℕ × ℕ × ConnectionState
  get_stats l = (l.statistics.bytes_in, l.statistics.bytes_out, l.state)

  unfoldable pub set_awaiter : Link W → Option ℕ → Link W
  set_awaiter l awaiter = record l { connection_awaiter = awaiter }

  unfoldable pub set_state : Link W → ConnectionState → Link W
  unfolding notify
  set_state l new_state = record l {
    state = new_state;
    statistics = record s { bytes_in = 0; bytes_out = 0 };
    notified = notify new_state l.connection_awaiter l.notified;
  }
    where
      s : ConnectionStatistics
      s = l.statistics

module _ {W : Type 0} ⦃io : WriteHalf W⦄ where
  unfoldable pub send_packet : Link W → Option (List ℕ) → Link W
  unfolding is_connected Statistics.add_bytes_out
  send_packet l payload =
      let data_to_send = elim payload as (λ x. List ℕ) [ none ↦ [] | some d ↦ d ] in
      let (ok, w) = io.write_all l.writer data_to_send in
      if is_connected l.state
      then if ok
        then record l {
          writer = w;
          statistics = Statistics.add_bytes_out l.statistics (length data_to_send);
        }
        else record l { writer = w }
      else l

  unfoldable pub close_connection : Link W → Link W
  close_connection l = record l { writer = io.shutdown l.writer; state = disconnected }
