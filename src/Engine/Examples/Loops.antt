-- ===== src/Engine/Examples/Loops.antt =====
-- Two repeats of a step in two waves, where each first connection fails.
use rupture_grid.Base.{some}
use rupture_grid.Engine.Processor.{Action}
use rupture_grid.Engine.Examples.Endings.{transfer}

abbrev twice : Action
twice = record transfer { repeat = some 2 }
