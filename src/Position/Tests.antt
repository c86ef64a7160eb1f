-- ===== src/Position/Tests.antt =====
-- Three tiles, and what the theorems say of them.
use darghos_tfs04_86_v.Position.{Position, PositionEx}

abbrev temple : Position
temple = record { x = 100; y = 200; z = 7 }

abbrev depot : Position
depot = record { x = 105; y = 204; z = 7 }

abbrev cellar : Position
cellar = record { x = 103; y = 207; z = 8 }

abbrev corner : Position
corner = record { x = 65535; y = 65535; z = 15 }

abbrev near : Position
near = record { x = 5; y = 5; z = 1 }

abbrev top_of_temple : PositionEx
top_of_temple = record { position = temple; stackpos = 1 }
