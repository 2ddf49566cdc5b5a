-- ===== src/Relay/Mux/Writer.antt =====
-- The writing end of a shared stream: the tasks of one side, in any order, against a reader.
use mathlib.Core.List.{append_assoc, append-nil, append_cancel_left}
use iog.Prelude.{
  ℕ, ◌<◌, ◌≡◌, refl, sym, ap, ◌∙◌, Bool, true, Option, some, List, [], ◌∷◌, ◌++◌, length, All,
  nat_eq,
}
use iog.Transport.{WriteHalf, WriteLaws, ReadHalf, ReadLaws}
use iog.Compression.{Zstd, ZstdLaws}
use iog.Gateway.Apart.{IsApart}
use iog.Relay.Pipe.{Pipe, feed, feed_all}
use iog.Relay.Stream.Receiver.{loop}
use iog.Relay.Stream.Reception.{Shows, feed_all-closed}
use iog.Relay.Mux.Put.{Put, Puts, quiet, passing, chunk, closing, unread}
use iog.Relay.Mux.Reader.{Reader, Reception, Reception-nothing, Put-Reception}

-- What a side promises of its tasks: the steps `A` that fit put on the shared stream what belongs
-- to them. A state tells whether the sending loop of the link still runs.
pub record Writer {W : Type 0} ⦃io : WriteHalf W⦄ ⦃z : Zstd⦄ (writes : WriteLaws W io)
    (X A : Type 0) (id : ℕ) : Type 1 where
  pub act : X → A → X
  pub runs : X → Bool
  pub stream : X → Option W
  pub reads_of : A → List (Option (List ℕ))
  pub Fits : A → Type 0
  pub on_act :
      (x : X) (a : A) (w : W)
      → Fits a
      → stream x ≡ some w
      → Puts writes id (runs x) (runs (act x a)) (reads_of a) w (stream (act x a))

-- The reads of the link's loop among the steps of all tasks.
abbrev pub all_reads : {A : Type 0} → (A → List (Option (List ℕ))) → List A → List (Option (List ℕ))
all_reads f [] = []
all_reads f (a ∷ steps) = f a ++ all_reads f steps

abbrev pub acts : {X A : Type 0} → (X → A → X) → X → List A → X
acts f x [] = x
acts f x (a ∷ steps) = acts f (f x a) steps

module _ ⦃z : Zstd⦄ where
  feed_all-append :
      (q : Pipe) (xs ys : List (Option (List ℕ)))
      → feed_all q (xs ++ ys) ≡ feed_all (feed_all q xs) ys
  unfolding feed_all
  feed_all-append q [] ys = refl
  feed_all-append q (x ∷ xs) ys = feed_all-append (feed q x) xs ys

  -- A loop runs on steps long steps its pipe stays open.
  Put-open :
      (id : ℕ) (runs runs' : Bool) (ys : List (Option (List ℕ))) (out bytes : List ℕ)
      → Put id runs runs' ys out
      → (bytes' : List ℕ) × (feed_all (record { bytes = bytes; is_open = runs }) ys
          ≡ record { bytes = bytes'; is_open = runs' })
  unfolding feed_all feed
  Put-open id runs runs' ys out bytes (quiet o) = (bytes, refl)
  Put-open id runs runs' ys out bytes (passing o p d ok passes) = (bytes, refl)
  Put-open id runs runs' ys out bytes (chunk p b bs ok t l) = (bytes ++ (b ∷ bs), refl)
  Put-open id runs runs' ys out bytes (closing p x ends ok t l) =
      (bytes, ends (record { bytes = bytes; is_open = true }))
  Put-open id runs runs' ys out bytes (unread x) = (bytes, feed_all-closed bytes (x ∷ []))

module _ {W R : Type 0} ⦃io : WriteHalf W⦄ ⦃ir : ReadHalf R⦄ ⦃z : Zstd⦄ (writes : WriteLaws W io)
    (reads : ReadLaws R ir) (codec : ZstdLaws z)
    (reliable : (w : W) (d : List ℕ) → (io.write_all w d).0 ≡ true) (S X A : Type 0)
    (reader : Reader W reads S) (id ref : ℕ) (tasks : Writer writes X A id) where
  -- What the steps leave: whether the loop runs, the stream, and what the reader makes of it.
  abbrev Written : X → List A → W → Type 0
  Written x steps w =
      let y = acts tasks.act x steps in
      let xs = all_reads tasks.reads_of steps in
      ((bytes : List ℕ)
        → tasks.runs y ≡ (feed_all (record { bytes = bytes; is_open = tasks.runs x }) xs).is_open)
      × (w' : W) × (tasks.stream y ≡ some w')
      × (delivered : List ℕ) × (writes.sent w' ≡ writes.sent w ++ delivered)
      × Reception writes reads codec reliable S reader id ref (tasks.runs x) (length steps) xs
          delivered

  acts-Written :
      (x : X) (steps : List A) (w : W)
      → All tasks.Fits steps
      → tasks.stream x ≡ some w
      → Written x steps w
  unfolding feed_all
  acts-Written x [] w fits at = (
    λ bytes. refl,
    w,
    at,
    [],
    sym (append-nil (writes.sent w)),
    Reception-nothing writes reads codec reliable S reader id ref (tasks.runs x),
  )
  acts-Written x (a ∷ steps) w fits at =
      let puts = tasks.on_act x a w fits.0 at in
      let y = tasks.act x a in
      let (opens, w', at', delivered, sent, reception) =
        acts-Written y steps puts.writer fits.1 puts.there in
      let ys = tasks.reads_of a in
      let zs = all_reads tasks.reads_of steps in
      (
        λ bytes.
            let (bytes', fed) =
              Put-open id (tasks.runs x) (tasks.runs y) ys puts.bytes bytes puts.put in
            opens bytes'
            ∙ sym (
                ap (λ q. q.is_open)
                  (feed_all-append (record { bytes = bytes; is_open = tasks.runs x }) ys zs
                    ∙ ap (λ q. feed_all q zs) fed)),
        w',
        at',
        puts.bytes ++ delivered,
        sent ∙ ap (λ l. l ++ delivered) puts.sent ∙ append_assoc (writes.sent w) _ delivered,
        Put-Reception writes reads codec reliable S reader id ref (tasks.runs x) (tasks.runs y) ys
            puts.bytes (length steps) zs delivered puts.put reception,
      )

  -- The tasks of one side and a reader on the other keep the contract of a pipe for one link,
  -- whatever else they do.
  pub acts-loop :
      (x : X) (steps : List A) (w w' : W) (s : S) (r : R) (bytes delivered : List ℕ) (fuel : ℕ)
      → All tasks.Fits steps
      → tasks.runs x ≡ true
      → tasks.stream x ≡ some w
      → let y = acts tasks.act x steps in
        tasks.stream y ≡ some w'
        → writes.sent w' ≡ writes.sent w ++ delivered
        → reads.pending r ≡ delivered
        → Shows writes (record { bytes = bytes; is_open = true }) (reader.side.base s) id ref
        → IsApart (reader.side.base s) id ref
        → length steps < fuel
        → let pipe =
            feed_all (record { bytes = bytes; is_open = true }) (all_reads tasks.reads_of steps) in
          (tasks.runs y ≡ pipe.is_open)
          × (s' : S) × (loop reader.side.turn fuel s r ≡ some s')
          × Shows writes pipe (reader.side.base s') id ref
  acts-loop x steps w w' s r bytes delivered fuel fits on at at' sent e shows a enough =
      let (opens, w1, at1, out, sent1, reception) = rw on at (acts-Written x steps w fits at) in
      let same : w1 ≡ w' = cc in
      let whole : delivered ≡ out =
        append_cancel_left _ _ _ (sym sent ∙ ap writes.sent (sym same) ∙ sent1) in
      let (s', ran, shows') = reception bytes s r fuel (e ∙ whole) shows a enough in
      (opens bytes, s', ran, shows')
