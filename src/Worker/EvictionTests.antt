-- ===== src/Worker/EvictionTests.antt =====
-- A memory whose two frames are taken, and the eviction of the page that was not used for longest.
use tp_ssoo_2c.Base.{
  ◌≡◌, refl, true, false, some, List, [], ◌∷◌, ◌+◌, length, ◌==◌, if◌then◌else◌, set, arith,
}
use tp_ssoo_2c.Worker.{NodoPagina, FileTag, NodoMarco, Memoria, nodo, pagina_en, poner_en}
use tp_ssoo_2c.Worker.Replacement.{
  victima_lru, recorrer_marcos, victima_clock_m, buscar_clock, primera_vuelta, segunda_vuelta,
  mover_puntero_clock,
}
use tp_ssoo_2c.Worker.Machine.{Estado, Aviso, hecho}
use tp_ssoo_2c.Worker.Tables.{file_tag_de, buscar_file_tag}
use tp_ssoo_2c.Worker.Evict.{algoritmo_lru, algoritmo_clock_m}
use tp_ssoo_2c.Worker.ClockVictim.{algoritmo_clock_m-Guardada}
use tp_ssoo_2c.Worker.Victim.{Expulsable, Guardada, algoritmo_lru-Guardada}
use tp_ssoo_2c.Worker.MemoryTests.{almacen, entorno, pagina_0, frame_0, cargada, almacen-Contesta}

abbrev pagina_1 : NodoPagina
pagina_1 = record {
  nro_pagina = 1;
  nro_marco = some 1;
  modificado = true;
  uso = true;
  presencia = true;
}

abbrev usado : NodoMarco
usado = record frame_0 { time = 5 }

abbrev viejo : NodoMarco
viejo = record {
  identificador = "a:uno";
  puntero_marco = 9 ∷ 8 ∷ 7 ∷ 6 ∷ [];
  pagina = some 1;
  time = 3;
}

abbrev a_dos_paginas : FileTag
a_dos_paginas = record {
  direccion = 0;
  identificador = "a:uno";
  cantidad_paginas = 4;
  tabla_paginas = 0 ∷ 1 ∷ [];
}

abbrev llena : Estado almacen.State
llena = record {
  memoria = record cargada {
    marco = usado ∷ viejo ∷ [];
    paginas = some pagina_0 ∷ some pagina_1 ∷ [];
    file_tag_pages = a_dos_paginas ∷ [];
    bit_map = true ∷ true ∷ [];
  };
  almacen = tt;
  avisos = [];
}

expulsable : Expulsable entorno llena.memoria viejo
unfolding buscar_file_tag file_tag_de nodo
expulsable = record {
  direccion = 1;
  pagina = pagina_1;
  indice = 1;
  datos = ("a", "uno");
  ft = a_dos_paginas;
  es_pagina = refl;
  es_nodo = refl;
  es_indice = refl;
  partes = refl;
  conocido = refl;
  vivo = refl;
  quedan = omega arith;
}

algoritmo_lru-Guardada_example :
    (u : Memoria) × (t : almacen.State) × (avisos : List Aviso) × (algoritmo_lru entorno "b:uno"
        llena
      ≡ hecho expulsable.indice (record llena { memoria = u; almacen = t; avisos = avisos }))
    × Guardada entorno expulsable.pagina expulsable.datos viejo.puntero_marco tt t
    × (nodo u.paginas expulsable.direccion
        ≡ some (record expulsable.pagina { presencia = false; modificado = false }))
    × (u.bit_map ≡ set llena.memoria.bit_map expulsable.indice false)
    × (u.marco ≡ llena.memoria.marco)
unfolding victima_lru recorrer_marcos
algoritmo_lru-Guardada_example =
    algoritmo_lru-Guardada entorno llena "b:uno" viejo refl expulsable almacen-Contesta

-- The clock stops at the first frame, whose page is modified and not in use.
expulsable_reloj : Expulsable entorno llena.memoria usado
unfolding buscar_file_tag file_tag_de nodo
expulsable_reloj = record {
  direccion = 0;
  pagina = pagina_0;
  indice = 0;
  datos = ("a", "uno");
  ft = a_dos_paginas;
  es_pagina = refl;
  es_nodo = refl;
  es_indice = refl;
  partes = refl;
  conocido = refl;
  vivo = refl;
  quedan = omega arith;
}

algoritmo_clock_m-Guardada_example :
    (u : Memoria) × (t : almacen.State) × (avisos : List Aviso) × (algoritmo_clock_m entorno "b:uno"
        llena
      ≡ hecho expulsable_reloj.indice (record llena { memoria = u; almacen = t; avisos = avisos }))
    × Guardada entorno expulsable_reloj.pagina expulsable_reloj.datos usado.puntero_marco tt t
    × (nodo u.paginas expulsable_reloj.direccion
        ≡ some
            (record expulsable_reloj.pagina { presencia = false; modificado = false; uso = false }))
    × (u.bit_map ≡ set llena.memoria.bit_map expulsable_reloj.indice false)
    × (u.victima_clock ≡ (
        if expulsable_reloj.indice + 1 == length llena.memoria.marco
        then 0
        else expulsable_reloj.indice + 1))
    × (u.marco ≡ llena.memoria.marco)
unfolding victima_clock_m buscar_clock primera_vuelta segunda_vuelta mover_puntero_clock poner_en
    pagina_en nodo
algoritmo_clock_m-Guardada_example =
    algoritmo_clock_m-Guardada entorno llena "b:uno" llena.memoria usado refl refl expulsable_reloj
      almacen-Contesta
