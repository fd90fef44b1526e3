-- ===== src/Tests/Ordering.antt =====
-- A run of the theorem on the total order of picomint-bft at the two nodes of the test graph.
use picomint.Prelude.{refl, arith}
use picomint.Bft.Extender.Order.{SameLog}
use picomint.Bft.Extender.Inv.{look}
use picomint.Bft.Engine.Agreement.{Runs-SameLog}
use picomint.Tests.Graph.{mint_of_four, graph, toy_crypto, full_node, part_node, committed}
use picomint.Tests.Facts.{graph-IsClosed, graph-Faults, own_hash, full_node-Sane, part_node-Sane}
use picomint.Tests.Runs.{full_node-Runs, part_node-Runs}

Runs-SameLog_example :
    SameLog toy_crypto 9
      (look graph)
      own_hash
      mint_of_four
      (committed full_node)
      (committed part_node)
Runs-SameLog_example =
    Runs-SameLog toy_crypto 9 9 (look graph) own_hash mint_of_four graph-IsClosed graph-Faults
      (committed full_node) (committed part_node) (omega arith) (omega arith) (omega arith)
      full_node-Runs part_node-Runs (refl, full_node-Sane.node.within, full_node-Sane.stores)
      (refl, part_node-Sane.node.within, part_node-Sane.stores) refl
