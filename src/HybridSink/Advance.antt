-- ===== src/HybridSink/Advance.antt =====
-- HybridSink: an automaton that does what is relied on of the one that the sink uses, for tests.
use minide.Base.{ap, ◌∙◌, Option, none, some}
use minide.HybridSink.Automaton.{
  Phase, Sink, Callbacks, next, enter, Acted, acted, threw, Advanced, moved, stayed, failed,
  Advances,
}

module _ {World : Type 0} (cb : Callbacks World) where
  abbrev pub from_action : Acted World → Advanced World
  from_action (acted s w) = moved s w
  from_action (threw s w) = failed s w

  abbrev pub take_transition : Sink → World → Option Phase → Advanced World
  take_transition s w none = stayed s w
  take_transition s w (some t) = from_action (enter cb t (record s { phase = t }) w)

  abbrev pub advance_by_table : Sink → World → Advanced World
  advance_by_table s w = take_transition s w (next s)

  pub advance_by_table-Advances : Advances cb advance_by_table
  advance_by_table-Advances = record {
    moves = λ s s' w w' t e f. ap (take_transition s w) e ∙ ap from_action f;
    stays = λ s w e. ap (take_transition s w) e;
  }
