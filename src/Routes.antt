-- ===== src/Routes.antt =====
-- common/utils/LogisticsRouteMapper.hpp and common/utils/CitySampling.hpp: the corridors, the nearest
-- waypoint, and the points at which a city is sampled. The distance of two points is an argument.
use weather_rtos.Base.{ℕ, ◌^◌, List, [], ◌∷◌, ◌++◌, ◌&&◌, if◌then◌else◌}
use weather_rtos.Base.Text.{Text, codes}
use weather_rtos.Double.{Double}

module _ (D : Double) where
  open D use {Value, literal, add, sub, lt}

  pub record RouteWaypoint : Type 0 where
    pub name : Text
    pub latitude : Value
    pub longitude : Value

  pub record LogisticsRoute : Type 0 where
    pub route_id : Text
    pub name : Text
    pub waypoints : List RouteWaypoint

  -- A waypoint with coordinates in ten thousandths of a degree.
  abbrev pub at_point : Text → ℕ → ℕ → RouteWaypoint
  at_point name lat lon = record {
    name = name;
    latitude = literal lat 4;
    longitude = literal lon 4;
  }

  -- The map's entries, in the order of their keys.
  unfoldable pub standard_routes : List (Text × LogisticsRoute)
  standard_routes =
      (
        codes "GQ-SOUTH-WEST",
        record {
          route_id = codes "GQ-SOUTH-WEST";
          name = codes "Mumbai-Bangalore Corridor";
          waypoints =
              at_point (codes "Mumbai_Exit") 190760 728777
              ∷ at_point (codes "Pune_Hub") 185204 738567
              ∷ at_point (codes "Satara_Waypoint") 176805 739918
              ∷ at_point (codes "Kolhapur_Waypoint") 167050 742433
              ∷ at_point (codes "Belagavi_Crossing") 158497 744977
              ∷ at_point (codes "Hubballi_Hub") 153647 751240
              ∷ at_point (codes "Tumakuru_Waypoint") 133392 771140
              ∷ at_point (codes "Bangalore_Entry") 129716 775946
              ∷ [];
        },
      )
      ∷ (
        codes "GQ-WEST",
        record {
          route_id = codes "GQ-WEST";
          name = codes "Delhi-Mumbai Corridor";
          waypoints =
              at_point (codes "Delhi_Exit") 286139 772090
              ∷ at_point (codes "Gurugram_Hub") 284595 770266
              ∷ at_point (codes "Jaipur_Bypass") 269124 757873
              ∷ at_point (codes "Ajmer_Waypoint") 264499 746399
              ∷ at_point (codes "Udaipur_Crossing") 245854 737125
              ∷ at_point (codes "Ahmedabad_Hub") 230225 725714
              ∷ at_point (codes "Surat_Waypoint") 211702 728311
              ∷ at_point (codes "Mumbai_Entry") 190760 728777
              ∷ [];
        },
      )
      ∷ []

  -- The variables of `findNearestSegment`: `min_dist`, `nearest_segment` and the output `route_id`.
  pub record Search : Type 0 where
    pub min_dist : Value
    pub nearest_segment : Text
    pub route_id : Text

  module _ (haversine : Value → Value → Value → Value → Value) (lat lon : Value) where
    abbrev pub distance_to : RouteWaypoint → Value
    distance_to w = haversine lat lon w.latitude w.longitude

    unfoldable pub visit : Text → RouteWaypoint → Search → Search
    visit id w s =
        if lt (distance_to w) s.min_dist && lt (distance_to w) (literal 50 0)
        then record { min_dist = distance_to w; nearest_segment = w.name; route_id = id }
        else s

    unfoldable pub visit_all : Text → List RouteWaypoint → Search → Search
    unfolding visit
    visit_all id [] s = s
    visit_all id (w ∷ ws) s = visit_all id ws (visit id w s)

    unfoldable pub visit_routes : List (Text × LogisticsRoute) → Search → Search
    unfolding visit_all
    visit_routes [] s = s
    visit_routes ((id, route) ∷ routes) s = visit_routes routes (visit_all id route.waypoints s)

    -- The segment, and the route id, which is the caller's where no waypoint is near.
    unfoldable pub find_nearest_segment : List (Text × LogisticsRoute) → Text → Text × Text
    unfolding visit_routes
    find_nearest_segment routes route_id =
        let s = visit_routes routes (record {
          min_dist = literal (10 ^ 18) 0;
          nearest_segment = codes "unknown";
          route_id = route_id;
        }) in
        (s.nearest_segment, s.route_id)

  pub record CitySamplePoint : Type 0 where
    pub label : Text
    pub layer : Text
    pub latitude : Value
    pub longitude : Value

  unfoldable pub make_city_sample_points : Text → Value → Value → Value → List CitySamplePoint
  make_city_sample_points city lat lon offset =
      record {
        label = city ++ codes "_center";
        layer = codes "city_center";
        latitude = lat;
        longitude = lon;
      }
      ∷ record {
        label = city ++ codes "_north";
        layer = codes "city_waypoint";
        latitude = add lat offset;
        longitude = lon;
      }
      ∷ record {
        label = city ++ codes "_east";
        layer = codes "city_waypoint";
        latitude = lat;
        longitude = add lon offset;
      }
      ∷ record {
        label = city ++ codes "_south";
        layer = codes "city_waypoint";
        latitude = sub lat offset;
        longitude = lon;
      }
      ∷ record {
        label = city ++ codes "_west";
        layer = codes "city_waypoint";
        latitude = lat;
        longitude = sub lon offset;
      }
      ∷ []
