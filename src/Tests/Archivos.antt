-- ===== src/Tests/Archivos.antt =====
-- The files: between the kernel and the filesystem, in the kernel's tables, and in the blocks.
use tp_so20231c.Common.{
  ℕ, ◌++◌, ◌≡◌, ◌≢◌, refl, List, [], ◌∷◌, some, true, false, ok, fault, bind, arith, ◌⊎◌, Text,
  codes, ◌==◌, if◌then◌else◌, length,
}
use tp_so20231c.Common.Int.{pos}
use tp_so20231c.Utils.Flag
use tp_so20231c.Utils.Types.{RtaKernelFs}
use tp_so20231c.Utils.Buffer.{pattern32}
use tp_so20231c.Utils.Buffer.Decodes.{Decodes}
use tp_so20231c.Utils.Contexto.RoundTrip.{IsPeticion}
use tp_so20231c.Filesystem.{Fcb, Disco, truncar_archivo}
use tp_so20231c.Filesystem.Bloques.{leer_archivo, escribir_archivo}
use tp_so20231c.Filesystem.Servidor.{suelto, fcb_de, buscar_archivo, Servidor, atender_kernel}
use tp_so20231c.Kernel.Archivos.{enviar_peticion, stream_pcb_fs, recibir_desbloqueado, abrir}
use tp_so20231c.Kernel.Archivos.Turnos.{vacio, quieto, abrir_lem, truncar_turno}
use tp_so20231c.Kernel.Abiertos.{buscar, sacar, Tablas, abrir_entrada, mover_puntero, pedir_archivo}
use tp_so20231c.Kernel.Abiertos.Posicion.{posicion_pedida}
use tp_so20231c.Tests.Memoria.{bits}

abbrev notas : Text
notas = codes "notas"

abbrev pedido : RtaKernelFs
pedido = record {
  size = pos 0;
  direccion_fisica = pos 0;
  nombre_archivo = notas;
  pid = pos 3;
  puntero = 0;
}

pedido-IsPeticion : IsPeticion pedido
pedido-IsPeticion = record {
  size = omega arith;
  direccion_fisica = omega arith;
  nombre_archivo = record { no_nul = ground arith; short = omega arith };
  pid = omega arith;
  puntero = omega arith;
}

abbrev lista : Fcb
lista = record { tamanio_archivo = pos 0; puntero_directo = 1; puntero_indirecto = 2 }

abbrev servidor : Servidor bits
servidor = record {
  directorio = (codes "lista", lista) ∷ [];
  archivo_bloques = 1 ∷ 2 ∷ 3 ∷ 4 ∷ 5 ∷ 6 ∷ 7 ∷ 8 ∷ [];
  bitmap = λ i. i == 1;
  de_kernel = [];
  a_kernel = [];
  de_bloqueados = [];
  a_bloqueados = [];
  de_memoria = [];
  a_memoria = [];
}

notas-suelto : suelto notas ≡ true
unfolding suelto
notas-suelto = refl

abrir_example :
    (s' : Servidor bits) × (abrir bits 0
        (pos 4)
        (λ _. true)
        []
        pedido
        (quieto bits 0 (pos 4) (λ _. true) [] servidor)
      ≡ ok s')
    × (buscar_archivo s'.directorio notas ≡ true)
    × ((buscar_archivo servidor.directorio notas ≡ true)
          × (s' ≡ quieto bits 0 (pos 4) (λ _. true) [] servidor)
        ⊎ (buscar_archivo servidor.directorio notas ≡ false)
          × (s' ≡ record (quieto bits 0 (pos 4) (λ _. true) [] servidor) {
            directorio = servidor.directorio ++ (notas, vacio) ∷ [];
          }))
abrir_example =
    abrir_lem bits 0 (pos 4) (λ _. true) [] pedido servidor pedido-IsPeticion (omega arith) refl
      notas-suelto

-- "lista" is cut to the size that it has.
abbrev recorte : RtaKernelFs
recorte = record pedido { nombre_archivo = codes "lista" }

recorte-IsPeticion : IsPeticion recorte
recorte-IsPeticion = record {
  size = omega arith;
  direccion_fisica = omega arith;
  nombre_archivo = record { no_nul = ground arith; short = omega arith };
  pid = omega arith;
  puntero = omega arith;
}

abbrev disco : Disco bits
disco = record { fcb = lista; archivo_bloques = servidor.archivo_bloques; bitmap = servidor.bitmap }

truncar_turno_example :
    (s' : Servidor bits) × (bytes : List ℕ) × (atender_kernel bits 0
        (pos 4)
        (λ _. true)
        []
        (record servidor {
          de_kernel = enviar_peticion [] Flag.i_truncate recorte ++ [];
          de_bloqueados = stream_pcb_fs [] (pos 3) ++ [];
        })
      ≡ ok s')
    × (fcb_de s'.directorio (codes "lista") ≡ some disco.fcb)
    × ((m : Text) → m ≢ codes "lista" → fcb_de s'.directorio m ≡ fcb_de servidor.directorio m)
    × (s'.archivo_bloques ≡ disco.archivo_bloques)
    × (s'.bitmap ≡ disco.bitmap)
    × (s'.de_kernel ≡ [])
    × (s'.de_bloqueados ≡ [])
    × (s'.a_bloqueados ≡ [] ++ bytes)
    × Decodes recibir_desbloqueado bytes (pos 3)
unfolding fcb_de truncar_archivo
truncar_turno_example =
    truncar_turno bits 0 (pos 4) (λ _. true) [] recorte servidor (pos 3) [] [] lista disco
      recorte-IsPeticion (omega arith) (omega arith) refl refl

-- Two files open, of which the process moves the first.
abbrev tablas : Tablas
tablas = record {
  entradas = λ p. record {
    archivo = if p == 0 then notas else codes "lista";
    pcb_en_espera = [];
    posicion_puntero = pos 0;
  };
  libre = 2;
  lista_global_archivos = 0 ∷ 1 ∷ [];
  tabla_de_archivos = 0 ∷ 1 ∷ [];
}

posicion_pedida_example :
    (t' : Tablas) × (mover_puntero notas (pos 9) tablas ≡ ok t')
    × (pedir_archivo notas (pos 0) (pos 4) (pos 3) t'
        ≡ ok (record {
          size = pos 4;
          direccion_fisica = pos 0;
          nombre_archivo = notas;
          pid = pos 3;
          puntero = pattern32 (pos 9);
        }))
    × ((m : Text)
        → m ≢ notas
        → pedir_archivo m (pos 0) (pos 4) (pos 3) t'
          ≡ pedir_archivo m (pos 0) (pos 4) (pos 3) tablas)
    × (t'.lista_global_archivos ≡ tablas.lista_global_archivos)
    × ((t'.entradas 0).posicion_puntero ≡ pos 9)
unfolding buscar sacar
posicion_pedida_example = posicion_pedida tablas notas (pos 9) (pos 0) (pos 4) (pos 3) 0 refl refl

-- Four bytes to the direct block, which is block 1 of two.
abbrev escritura : RtaKernelFs
escritura = record pedido { size = pos 0 }

escrito :
    escribir_archivo 0 (pos 4) escritura lista (65 ∷ 66 ∷ 67 ∷ 68 ∷ 0 ∷ []) servidor.archivo_bloques
    ≡ ok (1 ∷ 2 ∷ 3 ∷ 4 ∷ 65 ∷ 66 ∷ 67 ∷ 68 ∷ [])
unfolding escribir_archivo
escrito = refl

-- A size below that of a block is read past the end of what it is read into.
leido_de_mas :
    leer_archivo 0
      (pos 4)
      (0 ∷ 0 ∷ [])
      (record pedido { size = pos 2 })
      lista
      servidor.archivo_bloques
    ≡ fault
unfolding leer_archivo
leido_de_mas = refl

-- A file that is opened twice, and a second file, where a condition reads the entry that is meant.
dos_veces :
    bind
      (abrir_entrada ok notas (record tablas { lista_global_archivos = [] }))
      (abrir_entrada ok notas)
    ≡ fault
unfolding abrir_entrada
dos_veces = refl

abrir_otro :
    bind
      (abrir_entrada ok notas (record tablas { lista_global_archivos = [] }))
      (λ t. bind (abrir_entrada ok (codes "otro") t) (λ u. ok (length u.lista_global_archivos)))
    ≡ ok 2
unfolding abrir_entrada
abrir_otro = refl
