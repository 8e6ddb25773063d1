-- ===== src/Correlation/Scoring/Tests.antt =====
-- Runs of the clustering at small inputs.
use soc_one.Base.{ℕ, ◌<◌, ◌≡◌, ◌↔◌, inl, refl, List, [], ◌∷◌, arith, In}
use soc_one.Base.Float.{fixed4}
use soc_one.Correlation.Signals.{Node, Settings, score_edge, hostname, ip}
use soc_one.Correlation.Scoring.{
  Cluster, connected_components, link_all, link_rest, link_one, union, find, range, group_from,
  cluster_of, list_le,
}
use soc_one.Correlation.Scoring.Links.{Connected, link}
use soc_one.Correlation.Scoring.Recording.{Linkable}
use soc_one.Correlation.Scoring.Components.{
  connected_components-classes, connected_components-covers,
}

abbrev on_host : ℕ → Node
on_host n = record {
  case = n;
  pairs = record { kind = hostname; value = "pc-1" } ∷ [];
  tactics = [];
  timestamp = 0;
}

abbrev on_gateway : ℕ → Node
on_gateway n = record {
  case = n;
  pairs = record { kind = ip; value = "10.0.0.1" } ∷ [];
  tactics = [];
  timestamp = 0;
}

abbrev nodes : List Node
nodes = on_host 0 ∷ on_gateway 1 ∷ on_host 2 ∷ []

abbrev cfg : Settings fixed4
cfg = record { window_seconds = 3600; min_shared_entities = 1; threshold = 6000 }

abbrev expected : List (Cluster ℕ)
expected = record { indexes = 0 ∷ 2 ∷ []; link_score = 8500 } ∷ []

components_run : connected_components fixed4 cfg nodes ≡ expected
unfolding connected_components link_all link_rest link_one union find range group_from cluster_of
    list_le score_edge
components_run = refl

pair_linked : Linkable fixed4 cfg nodes 0 2
unfolding score_edge
pair_linked = (on_host 0, on_host 2, refl, refl, omega arith, refl)

connected_components-covers_example :
    (c : Cluster ℕ) × In c (connected_components fixed4 cfg nodes) × In 0 c.indexes × In 2 c.indexes
connected_components-covers_example =
    connected_components-covers fixed4 cfg nodes 0 2 (omega arith) (omega arith) (λ e. omega arith)
      (link pair_linked)

run-In :
    In (record { indexes = 0 ∷ 2 ∷ []; link_score = 8500 }) (connected_components fixed4 cfg nodes)
run-In = rw components_run (inl refl)

connected_components-classes_example :
    In {A = ℕ} 2 (0 ∷ 2 ∷ []) ↔ ((2 < 3) × Connected (Linkable fixed4 cfg nodes) 0 2)
connected_components-classes_example =
    connected_components-classes fixed4 cfg nodes
      (record { indexes = 0 ∷ 2 ∷ []; link_score = 8500 }) 0 2 run-In (inl refl)
