-- ===== src/User/Track/TableA.antt =====
-- src/user/track_data.c, `init_tracka`: the assignments to the nodes of track A, in the order of the
-- source. An arc is written as its reverse arc, its source, its destination and its length.
use the_polling_express.Base.{List, [], ◌∷◌, ◌++◌}
use the_polling_express.User.Track.Node.{
  Node, node_sensor, node_branch, node_merge, node_enter, node_exit, dir_straight, dir_curved, node,
  arc, no_arc,
}

abbrev tracka_0 : List Node
tracka_0 =
    node "A1" node_sensor 0 1 (arc 102 dir_straight 0 103 231) no_arc
    ∷ node "A2" node_sensor 1 0 (arc 132 dir_straight 1 133 504) no_arc
    ∷ node "A3" node_sensor 2 3 (arc 107 dir_straight 2 106 43) no_arc
    ∷ node "A4" node_sensor 3 2 (arc 30 dir_straight 3 31 437) no_arc
    ∷ node "A5" node_sensor 4 5 (arc 84 dir_straight 4 85 231) no_arc
    ∷ node "A6" node_sensor 5 4 (arc 24 dir_straight 5 25 642) no_arc
    ∷ node "A7" node_sensor 6 7 (arc 26 dir_straight 6 27 470) no_arc
    ∷ node "A8" node_sensor 7 6 (arc 82 dir_curved 7 83 229) no_arc
    ∷ node "A9" node_sensor 8 9 (arc 22 dir_straight 8 23 289) no_arc
    ∷ node "A10" node_sensor 9 8 (arc 80 dir_curved 9 81 229) no_arc
    ∷ node "A11" node_sensor 10 11 (arc 80 dir_straight 10 81 518) no_arc
    ∷ node "A12" node_sensor 11 10 (arc 138 dir_straight 11 139 43) no_arc
    ∷ node "A13" node_sensor 12 13 (arc 86 dir_curved 12 87 236) no_arc
    ∷ node "A14" node_sensor 13 12 (arc 130 dir_straight 13 131 325) no_arc
    ∷ node "A15" node_sensor 14 15 (arc 134 dir_straight 14 135 144) no_arc
    ∷ node "A16" node_sensor 15 14 (arc 86 dir_straight 15 87 417) no_arc
    ∷ node "B1" node_sensor 16 17 (arc 60 dir_straight 16 61 404) no_arc
    ∷ node "B2" node_sensor 17 16 (arc 110 dir_straight 17 111 231) no_arc
    ∷ []

abbrev tracka_1 : List Node
tracka_1 =
    node "B3" node_sensor 18 19 (arc 32 dir_straight 18 33 201) no_arc
    ∷ node "B4" node_sensor 19 18 (arc 110 dir_curved 19 111 239) no_arc
    ∷ node "B5" node_sensor 20 21 (arc 51 dir_straight 20 50 404) no_arc
    ∷ node "B6" node_sensor 21 20 (arc 104 dir_straight 21 105 231) no_arc
    ∷ node "B7" node_sensor 22 23 (arc 8 dir_straight 22 9 289) no_arc
    ∷ node "B8" node_sensor 23 22 (arc 136 dir_straight 23 137 43) no_arc
    ∷ node "B9" node_sensor 24 25 (arc 5 dir_straight 24 4 642) no_arc
    ∷ node "B10" node_sensor 25 24 (arc 140 dir_straight 25 141 50) no_arc
    ∷ node "B11" node_sensor 26 27 (arc 6 dir_straight 26 7 470) no_arc
    ∷ node "B12" node_sensor 27 26 (arc 142 dir_straight 27 143 50) no_arc
    ∷ node "B13" node_sensor 28 29 (arc 118 dir_curved 28 119 239) no_arc
    ∷ node "B14" node_sensor 29 28 (arc 62 dir_straight 29 63 201) no_arc
    ∷ node "B15" node_sensor 30 31 (arc 3 dir_straight 30 2 437) no_arc
    ∷ node "B16" node_sensor 31 30 (arc 109 dir_straight 31 108 50) no_arc
    ∷ node "C1" node_sensor 32 33 (arc 18 dir_straight 32 19 201) no_arc
    ∷ node "C2" node_sensor 33 32 (arc 116 dir_curved 33 117 246) no_arc
    ∷ node "C3" node_sensor 34 35 (arc 128 dir_straight 34 129 514) no_arc
    ∷ node "C4" node_sensor 35 34 (arc 88 dir_straight 35 89 239) no_arc
    ∷ []

abbrev tracka_2 : List Node
tracka_2 =
    node "C5" node_sensor 36 37 (arc 91 dir_straight 36 90 61) no_arc
    ∷ node "C6" node_sensor 37 36 (arc 108 dir_straight 37 109 433) no_arc
    ∷ node "C7" node_sensor 38 39 (arc 114 dir_straight 38 115 231) no_arc
    ∷ node "C8" node_sensor 39 38 (arc 85 dir_straight 39 84 128) no_arc
    ∷ node "C9" node_sensor 40 41 (arc 108 dir_curved 40 109 326) no_arc
    ∷ node "C10" node_sensor 41 40 (arc 111 dir_straight 41 110 128) no_arc
    ∷ node "C11" node_sensor 42 43 (arc 105 dir_straight 42 104 120) no_arc
    ∷ node "C12" node_sensor 43 42 (arc 106 dir_curved 43 107 333) no_arc
    ∷ node "C13" node_sensor 44 45 (arc 71 dir_straight 44 70 875) no_arc
    ∷ node "C14" node_sensor 45 44 (arc 101 dir_straight 45 100 43) no_arc
    ∷ node "C15" node_sensor 46 47 (arc 58 dir_straight 46 59 404) no_arc
    ∷ node "C16" node_sensor 47 46 (arc 90 dir_straight 47 91 239) no_arc
    ∷ node "D1" node_sensor 48 49 (arc 120 dir_curved 48 121 246) no_arc
    ∷ node "D2" node_sensor 49 48 (arc 66 dir_straight 49 67 201) no_arc
    ∷ node "D3" node_sensor 50 51 (arc 98 dir_straight 50 99 239) no_arc
    ∷ node "D4" node_sensor 51 50 (arc 20 dir_straight 51 21 404) no_arc
    ∷ node "D5" node_sensor 52 53 (arc 68 dir_straight 52 69 376) no_arc
    ∷ node "D6" node_sensor 53 52 (arc 96 dir_curved 53 97 239) no_arc
    ∷ []

abbrev tracka_3 : List Node
tracka_3 =
    node "D7" node_sensor 54 55 (arc 96 dir_straight 54 97 309) no_arc
    ∷ node "D8" node_sensor 55 54 (arc 70 dir_straight 55 71 384) no_arc
    ∷ node "D9" node_sensor 56 57 (arc 74 dir_straight 56 75 369) no_arc
    ∷ node "D10" node_sensor 57 56 (arc 94 dir_straight 57 95 316) no_arc
    ∷ node "D11" node_sensor 58 59 (arc 46 dir_straight 58 47 404) no_arc
    ∷ node "D12" node_sensor 59 58 (arc 92 dir_straight 59 93 231) no_arc
    ∷ node "D13" node_sensor 60 61 (arc 16 dir_straight 60 17 404) no_arc
    ∷ node "D14" node_sensor 61 60 (arc 112 dir_straight 61 113 239) no_arc
    ∷ node "D15" node_sensor 62 63 (arc 29 dir_straight 62 28 201) no_arc
    ∷ node "D16" node_sensor 63 62 (arc 112 dir_curved 63 113 246) no_arc
    ∷ node "E1" node_sensor 64 65 (arc 122 dir_curved 64 123 239) no_arc
    ∷ node "E2" node_sensor 65 64 (arc 79 dir_straight 65 78 201) no_arc
    ∷ node "E3" node_sensor 66 67 (arc 49 dir_straight 66 48 201) no_arc
    ∷ node "E4" node_sensor 67 66 (arc 98 dir_curved 67 99 239) no_arc
    ∷ node "E5" node_sensor 68 69 (arc 52 dir_straight 68 53 376) no_arc
    ∷ node "E6" node_sensor 69 68 (arc 99 dir_straight 69 98 50) no_arc
    ∷ node "E7" node_sensor 70 71 (arc 55 dir_straight 70 54 384) no_arc
    ∷ node "E8" node_sensor 71 70 (arc 44 dir_straight 71 45 875) no_arc
    ∷ []

abbrev tracka_4 : List Node
tracka_4 =
    node "E9" node_sensor 72 73 (arc 94 dir_curved 72 95 239) no_arc
    ∷ node "E10" node_sensor 73 72 (arc 77 dir_straight 73 76 376) no_arc
    ∷ node "E11" node_sensor 74 75 (arc 56 dir_straight 74 57 369) no_arc
    ∷ node "E12" node_sensor 75 74 (arc 93 dir_straight 75 92 50) no_arc
    ∷ node "E13" node_sensor 76 77 (arc 113 dir_straight 76 112 43) no_arc
    ∷ node "E14" node_sensor 77 76 (arc 73 dir_straight 77 72 376) no_arc
    ∷ node "E15" node_sensor 78 79 (arc 104 dir_curved 78 105 246) no_arc
    ∷ node "E16" node_sensor 79 78 (arc 65 dir_straight 79 64 201) no_arc
    ∷ node "BR1" node_branch 1 81 (arc 10 dir_straight 80 11 518) (arc 9 dir_straight 80 8 229)
    ∷ node "MR1" node_merge 1 80 (arc 82 dir_straight 81 83 188) no_arc
    ∷ node "BR2" node_branch 2 83 (arc 81 dir_straight 82 80 188) (arc 7 dir_straight 82 6 229)
    ∷ node "MR2" node_merge 2 82 (arc 84 dir_curved 83 85 185) no_arc
    ∷ node "BR3" node_branch 3 85 (arc 4 dir_straight 84 5 231) (arc 83 dir_straight 84 82 185)
    ∷ node "MR3" node_merge 3 84 (arc 39 dir_straight 85 38 128) no_arc
    ∷ node "BR4" node_branch 4 87 (arc 15 dir_straight 86 14 417) (arc 12 dir_straight 86 13 236)
    ∷ node "MR4" node_merge 4 86 (arc 102 dir_curved 87 103 185) no_arc
    ∷ []

abbrev tracka_5 : List Node
tracka_5 =
    node "BR5" node_branch 5 89 (arc 35 dir_straight 88 34 239) (arc 92 dir_curved 88 93 371)
    ∷ node "MR5" node_merge 5 88 (arc 115 dir_straight 89 114 155) no_arc
    ∷ node "BR6" node_branch 6 91 (arc 47 dir_straight 90 46 239) (arc 114 dir_curved 90 115 371)
    ∷ node "MR6" node_merge 6 90 (arc 36 dir_straight 91 37 61) no_arc
    ∷ node "BR7" node_branch 7 93 (arc 59 dir_straight 92 58 231) (arc 88 dir_curved 92 89 371)
    ∷ node "MR7" node_merge 7 92 (arc 75 dir_straight 93 74 50) no_arc
    ∷ node "BR8" node_branch 8 95 (arc 57 dir_straight 94 56 316) (arc 72 dir_straight 94 73 239)
    ∷ node "MR8" node_merge 8 94 (arc 97 dir_straight 95 96 155) no_arc
    ∷ node "BR9" node_branch 9 97 (arc 54 dir_straight 96 55 309) (arc 53 dir_straight 96 52 239)
    ∷ node "MR9" node_merge 9 96 (arc 95 dir_straight 97 94 155) no_arc
    ∷ node "BR10" node_branch 10 99 (arc 50 dir_straight 98 51 239) (arc 67 dir_straight 98 66 239)
    ∷ node "MR10" node_merge 10 98 (arc 69 dir_straight 99 68 50) no_arc
    ∷ node "BR11" node_branch 11 101 (arc 103 dir_straight 100 102 188)
        (arc 106 dir_straight 100 107 495)
    ∷ node "MR11" node_merge 11 100 (arc 45 dir_straight 101 44 43) no_arc
    ∷ []

abbrev tracka_6 : List Node
tracka_6 =
    node "BR12" node_branch 12 103 (arc 0 dir_straight 102 1 231) (arc 87 dir_straight 102 86 185)
    ∷ node "MR12" node_merge 12 102 (arc 100 dir_straight 103 101 188) no_arc
    ∷ node "BR13" node_branch 13 105 (arc 21 dir_straight 104 20 231)
        (arc 78 dir_straight 104 79 246)
    ∷ node "MR13" node_merge 13 104 (arc 42 dir_straight 105 43 120) no_arc
    ∷ node "BR14" node_branch 14 107 (arc 100 dir_curved 106 101 495)
        (arc 43 dir_straight 106 42 333)
    ∷ node "MR14" node_merge 14 106 (arc 2 dir_straight 107 3 43) no_arc
    ∷ node "BR15" node_branch 15 109 (arc 37 dir_straight 108 36 433)
        (arc 40 dir_straight 108 41 326)
    ∷ node "MR15" node_merge 15 108 (arc 31 dir_straight 109 30 50) no_arc
    ∷ node "BR16" node_branch 16 111 (arc 17 dir_straight 110 16 231)
        (arc 19 dir_straight 110 18 239)
    ∷ node "MR16" node_merge 16 110 (arc 41 dir_straight 111 40 128) no_arc
    ∷ node "BR17" node_branch 17 113 (arc 61 dir_straight 112 60 239)
        (arc 63 dir_straight 112 62 246)
    ∷ node "MR17" node_merge 17 112 (arc 76 dir_straight 113 77 43) no_arc
    ∷ node "BR18" node_branch 18 115 (arc 38 dir_straight 114 39 231) (arc 90 dir_curved 114 91 371)
    ∷ node "MR18" node_merge 18 114 (arc 89 dir_straight 115 88 155) no_arc
    ∷ []

abbrev tracka_7 : List Node
tracka_7 =
    node "BR153" node_branch 153 117 (arc 124 dir_straight 116 125 253)
      (arc 33 dir_straight 116 32 246)
    ∷ node "MR153" node_merge 153 116 (arc 118 dir_straight 117 119 0) no_arc
    ∷ node "BR154" node_branch 154 119 (arc 117 dir_straight 118 116 0)
        (arc 28 dir_straight 118 29 239)
    ∷ node "MR154" node_merge 154 118 (arc 123 dir_straight 119 122 0) no_arc
    ∷ node "BR155" node_branch 155 121 (arc 126 dir_straight 120 127 282)
        (arc 48 dir_straight 120 49 246)
    ∷ node "MR155" node_merge 155 120 (arc 122 dir_straight 121 123 0) no_arc
    ∷ node "BR156" node_branch 156 123 (arc 121 dir_straight 122 120 0)
        (arc 64 dir_straight 122 65 239)
    ∷ node "MR156" node_merge 156 122 (arc 119 dir_straight 123 118 0) no_arc
    ∷ node "EN1" node_enter 0 125 (arc 116 dir_straight 124 117 253) no_arc
    ∷ node "EX1" node_exit 0 124 no_arc no_arc
    ∷ node "EN2" node_enter 0 127 (arc 120 dir_straight 126 121 282) no_arc
    ∷ node "EX2" node_exit 0 126 no_arc no_arc
    ∷ node "EN3" node_enter 0 129 (arc 34 dir_straight 128 35 514) no_arc
    ∷ node "EX3" node_exit 0 128 no_arc no_arc
    ∷ node "EN4" node_enter 0 131 (arc 13 dir_straight 130 12 325) no_arc
    ∷ node "EX4" node_exit 0 130 no_arc no_arc
    ∷ node "EN5" node_enter 0 133 (arc 1 dir_straight 132 0 504) no_arc
    ∷ node "EX5" node_exit 0 132 no_arc no_arc
    ∷ node "EN6" node_enter 0 135 (arc 14 dir_straight 134 15 144) no_arc
    ∷ node "EX6" node_exit 0 134 no_arc no_arc
    ∷ node "EN7" node_enter 0 137 (arc 23 dir_straight 136 22 43) no_arc
    ∷ []

abbrev tracka_8 : List Node
tracka_8 =
    node "EX7" node_exit 0 136 no_arc no_arc
    ∷ node "EN8" node_enter 0 139 (arc 11 dir_straight 138 10 43) no_arc
    ∷ node "EX8" node_exit 0 138 no_arc no_arc
    ∷ node "EN9" node_enter 0 141 (arc 25 dir_straight 140 24 50) no_arc
    ∷ node "EX9" node_exit 0 140 no_arc no_arc
    ∷ node "EN10" node_enter 0 143 (arc 27 dir_straight 142 26 50) no_arc
    ∷ node "EX10" node_exit 0 142 no_arc no_arc
    ∷ []

unfoldable pub init_tracka : List Node
init_tracka =
    tracka_0
    ++ (tracka_1
        ++ (tracka_2
            ++ (tracka_3 ++ (tracka_4 ++ (tracka_5 ++ (tracka_6 ++ (tracka_7 ++ (tracka_8))))))))
